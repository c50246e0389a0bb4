-- ===== src/Register/Loading/Objects.antt =====
-- What the steps of `Register::load` keep of the register.
use mathlib.Core.Option.{none-ne-some, some-injective}
use experimaestro.Prelude.{
  Option, none, ◌≢◌, ℕ, List, ◌≤◌, ◌<◌, ◌≡◌, refl, ap, ◌∙◌, false, some, Text, lookup, arith,
}
use experimaestro.Scheduler.{update_elim, update_ne}
use experimaestro.Types.{TypeInfo}
use experimaestro.Value.Arguments.{Argument}
use experimaestro.Register.{is_array_name}
use experimaestro.Register.Store.{Store, TaskInfo, change_type}

module _ {D : Type 0} where
  -- Every type stands under its own name, and its number is taken.
  pub record IsConsistent (s : Store D) : Type 0 where
    pub named : (name : Text) (t : ℕ) → lookup name s.names ≡ some t → (s.types t).name ≡ name
    pub taken : (name : Text) (t : ℕ) → lookup name s.names ≡ some t → t < s.count

  -- Types and arguments are added; the types that are there keep their numbers and names, but for names
  -- with brackets at their ends, what is defined stays so and keeps its parent and its arguments, but for
  -- the type `open_type` when there is one, and the arguments that are there stay as they are.
  pub record Extends (open_type : Option ℕ) (s s' : Store D) : Type 0 where
    pub larger : s.count ≤ s'.count
    pub more : s.argument_count ≤ s'.argument_count
    pub same_type :
        (t : ℕ)
        → t < s.count
        → s.placeholder t ≡ false
        → open_type ≢ some t
        → s'.types t ≡ s.types t
    pub same_argument : (n : ℕ) → n < s.argument_count → s'.arguments n ≡ s.arguments n
    pub defined : (t : ℕ) → t < s.count → s.placeholder t ≡ false → s'.placeholder t ≡ false
    pub same_name : (t : ℕ) → t < s.count → (s'.types t).name ≡ (s.types t).name
    pub found :
        (name : Text) (t : ℕ)
        → is_array_name name ≡ false
        → lookup name s.names ≡ some t
        → lookup name s'.names ≡ some t

  abbrev pub GoodBut : Option ℕ → Store D → Store D → Type 0
  GoodBut x s s' = IsConsistent s → IsConsistent s' × Extends x s s'

  abbrev pub Good : Store D → Store D → Type 0
  Good = GoodBut none

  pub weaken : (x : Option ℕ) (s s' : Store D) → Good s s' → GoodBut x s s'
  weaken x s s' g c =
      let (c', a) = g c in
      (
        c',
        record {
          larger = a.larger;
          more = a.more;
          same_type = λ t lt e _. a.same_type t lt e (none-ne-some t);
          same_argument = a.same_argument;
          defined = a.defined;
          same_name = a.same_name;
          found = a.found;
        },
      )

  pub Good-refl : (s : Store D) → Good s s
  Good-refl s c = (
    c,
    record {
      larger = omega arith;
      more = omega arith;
      same_type = λ t lt e _. refl;
      same_argument = λ n lt. refl;
      defined = λ t lt e. e;
      same_name = λ t lt. refl;
      found = λ name t a e. e;
    },
  )

  pub Good-trans : {x : Option ℕ} (s t u : Store D) → GoodBut x s t → GoodBut x t u → GoodBut x s u
  Good-trans s t u f g c =
      let (ct, a) = f c in
      let (cu, b) = g ct in
      (
        cu,
        record {
          larger = omega (arith, a.larger, b.larger);
          more = omega (arith, a.more, b.more);
          same_type = λ k lt e ne.
              b.same_type k (omega (arith, lt, a.larger)) (a.defined k lt e) ne
              ∙ a.same_type k lt e ne;
          same_argument =
              λ n lt. b.same_argument n (omega (arith, lt, a.more)) ∙ a.same_argument n lt;
          defined = λ k lt e. b.defined k (omega (arith, lt, a.larger)) (a.defined k lt e);
          same_name = λ k lt. b.same_name k (omega (arith, lt, a.larger)) ∙ a.same_name k lt;
          found = λ name k n e. b.found name k n (a.found name k n e);
        },
      )

  -- A type that was not defined before may change on the way.
  pub Good-trans_open :
      (t : ℕ) (s u v : Store D)
      → ((k : ℕ) → k < s.count → s.placeholder k ≡ false → t ≢ k)
      → Good s u
      → GoodBut (some t) u v
      → Good s v
  Good-trans_open t s u v new f g c =
      let (cu, a) = f c in
      let (cv, b) = Good-trans s u v (weaken (some t) s u f) g c in
      (
        cv,
        record {
          larger = b.larger;
          more = b.more;
          same_type = λ k lt e _. b.same_type k lt e (λ q. new k lt e (some-injective _ _ q));
          same_argument = b.same_argument;
          defined = b.defined;
          same_name = b.same_name;
          found = b.found;
        },
      )

  -- An addition to the arguments, and a change of the tasks.
  pub Good-beside :
      (s : Store D) (arguments : ℕ → Argument D) (n : ℕ) (tasks : List (Text × TaskInfo))
      → s.argument_count ≤ n
      → ((k : ℕ) → k < s.argument_count → arguments k ≡ s.arguments k)
      → Good s (record s { arguments = arguments; argument_count = n; tasks = tasks })
  Good-beside s arguments n tasks more kept c = (
    record { named = c.named; taken = c.taken },
    record {
      larger = omega arith;
      more = more;
      same_type = λ t lt e _. refl;
      same_argument = kept;
      defined = λ t lt e. e;
      same_name = λ t lt. refl;
      found = λ name t a e. e;
    },
  )

  change_type-names :
      (t : ℕ) (f : TypeInfo → TypeInfo) (s : Store D)
      → ((i : TypeInfo) → (f i).name ≡ i.name)
      → (k : ℕ) → ((change_type t f s).types k).name ≡ (s.types k).name
  unfolding change_type
  change_type-names t f s keeps k =
      update_elim s.types t (f (s.types t)) (λ x. x.name ≡ (s.types k).name) k
        (λ e. keeps (s.types t) ∙ ap (λ n. (s.types n).name) e) (λ _. refl)

  -- A change of a type that keeps its name.
  pub change_type-Good :
      (t : ℕ) (f : TypeInfo → TypeInfo) (s : Store D)
      → ((i : TypeInfo) → (f i).name ≡ i.name)
      → GoodBut (some t) s (change_type t f s)
  unfolding change_type
  change_type-Good t f s keeps c = (
    record {
      named = λ name k e. change_type-names t f s keeps k ∙ c.named name k e;
      taken = c.taken;
    },
    record {
      larger = omega arith;
      more = omega arith;
      same_type = λ k lt e ne. update_ne s.types t (f (s.types t)) k (λ q. ne (ap (λ n. some n) q));
      same_argument = λ n lt. refl;
      defined = λ k lt e. e;
      same_name = λ k lt. change_type-names t f s keeps k;
      found = λ name k a e. e;
    },
  )
