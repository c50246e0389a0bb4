-- ===== src/Value/Locating/Places.antt =====
-- Different values of a task have different places.
use experimaestro.Prelude.{
  ℕ, ◌/◌, ◌%◌, ◌≤◌, ◌<◌, ◌≡◌, ◌≢◌, sym, ap, ◌∙◌, false, [], ◌∷◌, ◌++◌, append_assoc, Text, codes,
  All, length, length-append, append_cancel, append_separator, drop, text_eq, text_eq_iff,
  if◌then◌else◌, arith, Bool-cases, inl, inr,
}
use experimaestro.Errors.{ok, ok-injective}
use experimaestro.Path.{FilePath, resolve, is_root, slash}
use experimaestro.Value.{Complex, MapInfo, Value, map, Entries}
use experimaestro.Value.Arguments.{Schema}
use experimaestro.Value.Digest.{Hash, digest, hex_digit, hex, unique_identifier}
use experimaestro.Value.Digest.Identifiers.{hex_injective}
use experimaestro.Value.Locating.{task_folder, named_place, generate_path}

-- SHA-1 gives twenty bytes.
pub record IsSha1 {D : Type 0} (h : Hash D) : Type 0 where
  pub are_bytes : (s : Text) → All (λ b. b < 256) (h.sha1 s)
  pub twenty : (s : Text) → length (h.sha1 s) ≡ 20

hex_unslashed : (bytes : Text) → All (λ b. b ≢ slash) (hex bytes)
unfolding hex hex_digit
hex_unslashed [] = tt
hex_unslashed (b ∷ bytes) = (plain (b / 16), (plain (b % 16), hex_unslashed bytes))
  where
    plain : (n : ℕ) → hex_digit n ≢ slash
    plain n = ground arith

length-hex : (bytes : Text) → length bytes ≤ length (hex bytes)
unfolding hex
length-hex [] = omega arith
length-hex (b ∷ bytes) = omega (arith, length-hex bytes)

-- A directory in a directory is not the root.
is_root-resolve :
    (folder : FilePath) (name : Text)
    → 0 < length name
    → is_root (resolve folder (name ∷ [])) ≡ false
unfolding is_root resolve
is_root-resolve folder name h = elim (Bool-cases (text_eq (base ++ slash ∷ name) (codes "/"))) [
  | inr no_root ↦ no_root
  | inl root ↦ absurd (
      omega (
        arith,
        h,
        length-append base (slash ∷ name),
        ap length ((text_eq_iff (base ++ slash ∷ name) (codes "/")).0 root),
      ))
]
  where
    base : Text
    base = if text_eq folder.path (codes "/") then [] else folder.path

named_place-path :
    (c : ℕ) (name uuid : Text) (folder : FilePath)
    → 0 < length uuid
    → (named_place (c ∷ name) uuid folder).path
      ≡ (if is_root folder then [] else folder.path) ++ (slash ∷ (uuid ++ slash ∷ c ∷ name))
unfolding named_place resolve
named_place-path c name uuid folder h =
    ap (λ b. (if b then [] else (resolve folder (uuid ∷ [])).path) ++ slash ∷ c ∷ name)
      (is_root-resolve folder uuid h)
    ∙ append_assoc (if is_root folder then [] else folder.path) (slash ∷ uuid) (slash ∷ c ∷ name)

named_place_injective :
    (name : Text) (one two : Text) (folder : FilePath)
    → All (λ b. b ≢ slash) one
    → All (λ b. b ≢ slash) two
    → 0 < length one
    → 0 < length two
    → named_place name one folder ≡ named_place name two folder
    → one ≡ two
unfolding named_place resolve
named_place_injective [] one two folder a b l k e =
    ap (drop 1) (append_cancel _ (slash ∷ one) (slash ∷ two) (ap (λ p. p.path) e))
named_place_injective (c ∷ name) one two folder a b l k e =
    (append_separator slash one two (c ∷ name) (c ∷ name) a b (
      ap (drop 1) (
        append_cancel (if is_root folder then [] else folder.path) _ _ (
          sym (named_place-path c name one folder l)
          ∙ ap (λ p. p.path) e
          ∙ named_place-path c name two folder k)))).0

-- Where SHA-1 gives twenty bytes, two maps of the same task, or of none, for which the same generator gives
-- the same path have the same digest.
pub generate_path_injective :
    {D : Type 0} (schema : Schema D) (h : Hash D) (jobsdir place : FilePath) (name : Text)
    (flags flags' : ℕ) (x x' : Complex D) (i j : MapInfo) (entries entries' : Entries D)
    → IsSha1 h
    → i.task ≡ j.task
    → generate_path schema h jobsdir name (map flags x i entries) ≡ ok place
    → generate_path schema h jobsdir name (map flags' x' j entries') ≡ ok place
    → digest schema h (map flags x i entries) ≡ digest schema h (map flags' x' j entries')
unfolding generate_path unique_identifier digest
generate_path_injective {D = D} schema h jobsdir place name flags flags' x x' i j entries entries'
      sha task one two =
    hex_injective (digest schema h v) (digest schema h w) (sha.are_bytes _) (sha.are_bytes _) (
      named_place_injective name (unique_identifier schema h v) (unique_identifier schema h w)
        (task_folder jobsdir i.task) (hex_unslashed _) (hex_unslashed _) (long _) (long _)
        (ok-injective one
          ∙ sym (ok-injective two)
          ∙ ap (λ t. named_place name (unique_identifier schema h w) (task_folder jobsdir t))
              (sym task)))
  where
    v : Value D
    v = map flags x i entries

    w : Value D
    w = map flags' x' j entries'

    long : (s : Text) → 0 < length (hex (h.sha1 s))
    long s = omega (arith, sha.twenty s, length-hex (h.sha1 s))
