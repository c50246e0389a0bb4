-- ===== src/Samples/Tools.antt =====
-- A matcher of identifiers, a client, a register and the files of a context.
use experimaestro.Prelude.{
  ℕ, zero, suc, ◌≡◌, ◌≢◌, refl, ap, false, none, some, [], ◌∷◌, ◌++◌, Text, codes, All, length,
  text_eq, arith,
}
use experimaestro.Errors.{Result, ok, err}
use experimaestro.Types.{Types}
use experimaestro.Path.{local}
use experimaestro.Launcher.{create, process}
use experimaestro.Launcher.Matching.{process-finds}
use experimaestro.Scalar.Json.{Json, null, json_string, object, no_member, member}
use experimaestro.Command.Context.{CommandContext, IsFormat}
use experimaestro.Register.{add_type, get_type, is_array_name}
use experimaestro.Register.Naming.{deep_name, deep_type, get_type-add_type}
use experimaestro.Rpc.{Client, enter_request}
use experimaestro.Rpc.Answers.{handle_all}

-- The output "ab\nID=12\n", for the prefix "\nID=".
process-finds_example :
    process
      (codes "ab" ++ (10 ∷ codes "ID=" ++ (codes "12" ++ 10 ∷ [])))
      (create (10 ∷ codes "ID="))
    ≡ ok (record { prefix = 10 ∷ codes "ID="; pos = 4; value = codes "12"; reading = false })
process-finds_example =
    process-finds (codes "ab") 10 (codes "ID=") (codes "12") (omega arith, (omega arith, tt))
      (omega arith, (omega arith, tt))

abbrev asking : Client ℕ
asking = record {
  current_request_id = 4;
  requests = (3, null) ∷ (2, null) ∷ [];
  has_callback = false;
  notified = [];
}

abbrev answer_four : Json ℕ
answer_four = object (member (codes "id") (json_string (codes "4")) no_member)

abbrev client_or : Result (Client ℕ) → Client ℕ
client_or (ok c) = c
client_or (err _) = asking

abbrev all_numbers_four : Text → Result ℕ
all_numbers_four _ = ok 4

abbrev answered : Client ℕ
answered = client_or (
    handle_all all_numbers_four (answer_four ∷ object no_member ∷ [])
      (enter_request (codes "run") null asking).1)

abbrev plain_type : Types
plain_type t = record { name = codes "model"; parent = none; arguments = []; can_ignore = false }

get_type-add_type_example :
    get_type 3 suc (codes "model[][]") (add_type plain_type 6 []) ≡ ok (some 8)
unfolding deep_name deep_type is_array_name text_eq experimaestro.Types.array_name
get_type-add_type_example =
    get_type-add_type 2 3 plain_type suc [] 6 (omega arith) (omega arith) refl

-- A count as so many strokes.
abbrev pub strokes : ℕ → Text
strokes zero = []
strokes (suc n) = 49 ∷ strokes n

length-strokes : (n : ℕ) → length (strokes n) ≡ n
length-strokes zero = refl
length-strokes (suc n) = ap suc (length-strokes n)

strokes-undotted : (n : ℕ) → All (λ b. b ≢ 46) (strokes n)
strokes-undotted zero = tt
strokes-undotted (suc n) = (omega arith, strokes-undotted n)

pub strokes-IsFormat : IsFormat strokes
strokes-IsFormat = record {
  undotted = strokes-undotted;
  injective = λ m n e. omega (arith, ap length e, length-strokes m, length-strokes n);
}

abbrev pub script : CommandContext
script = record { folder = local (codes "/tmp"); name = codes "run"; counts = [] }
