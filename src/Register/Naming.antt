-- ===== src/Register/Naming.antt =====
-- The names that `getType` answers to.
use mathlib.Core.Option.{some-injective, none-ne-some}
use experimaestro.Prelude.{
  ℕ, zero, suc, ◌+◌, ◌-◌, ◌≤◌, ◌<◌, ◌≡◌, refl, sym, ap, ◌∙◌, Bool, true, false, some, ◌++◌, Text,
  codes, text_eq, text_eq_iff, text_eq_refl, lookup, lookup-insert, length, length-append, ◌&&◌,
  take, drop, take-append, drop-append, take-append-drop, ltb, arith, Bool-cases, Option-cases, inl,
  inr,
}
use experimaestro.Errors.{ok, >>=-eq-ok, ok-injective, err-ne-ok}
use experimaestro.Types.{Types, array_name}
use experimaestro.Register.{Register, add_type, is_array_name, array_type, get_type}

-- An array type is named after its component's.
abbrev pub NamesArrays : Types → (ℕ → ℕ) → Type 0
NamesArrays types array_of = (t : ℕ) → (types (array_of t)).name ≡ array_name (types t).name

-- Every type stands under its name.
abbrev pub IsNamed : Types → Register → Type 0
IsNamed types r = (name : Text) (t : ℕ) → lookup name r ≡ some t → (types t).name ≡ name

pub add_type-IsNamed :
    (types : Types) (t : ℕ) (r : Register) → IsNamed types r → IsNamed types (add_type types t r)
unfolding add_type
add_type-IsNamed types t r named name u e = elim (Bool-cases (text_eq (types t).name name)) [
  | inl same ↦
      let there : some t ≡ some u = rw (lookup-insert (types t).name name t r, same) at e in
      ap (λ k. (types k).name) (sym (some-injective t u there))
      ∙ (text_eq_iff (types t).name name).0 same
  | inr apart ↦ named name u (rw (lookup-insert (types t).name name t r, apart) at e)
]

is_array_name-array_name : (name : Text) → 0 < length name → is_array_name (array_name name) ≡ true
unfolding is_array_name array_name text_eq
is_array_name-array_name name h = rw (cut, drop-append name (codes "[]"), long, is_array_name) refl
  where
    total : length (name ++ codes "[]") ≡ length name + 2
    total = length-append name (codes "[]")

    cut : length (name ++ codes "[]") - 2 ≡ length name
    cut = omega (arith, total)

    long : ltb 2 (length (name ++ codes "[]")) ≡ true
    long = ground (arith, total)

both_true : (a b : Bool) → (a && b) ≡ true → (a ≡ true) × (b ≡ true)
both_true a b h = ground arith

-- A name with brackets is that of the array of what stands before them.
array_name_cut :
    (name : Text) → is_array_name name ≡ true → array_name (take (length name - 2) name) ≡ name
unfolding is_array_name array_name
array_name_cut name h =
    let ends = (text_eq_iff (drop (length name - 2) name) (codes "[]")).0 (both_true _ _ h).1 in
    ap (λ t. take (length name - 2) name ++ t) (sym ends) ∙ take-append-drop (length name - 2) name

array_name-take : (name : Text) → take (length (array_name name) - 2) (array_name name) ≡ name
unfolding array_name
array_name-take name =
    ap (λ n. take n (name ++ codes "[]")) (omega (arith, length-append name (codes "[]")))
    ∙ take-append name (codes "[]")

-- Where every type of the register stands under its name, and an array type is named after its component, a type that
-- `getType` finds has the name that was asked for.
pub get_type-name :
    (fuel : ℕ) (types : Types) (array_of : ℕ → ℕ) (r : Register) (name : Text) (t : ℕ)
    → NamesArrays types array_of
    → IsNamed types r
    → get_type fuel array_of name r ≡ ok (some t)
    → (types t).name ≡ name
unfolding get_type array_type
get_type-name zero types array_of r name t arrays named e = absurd (err-ne-ok e)
get_type-name (suc fuel) types array_of r name t arrays named e =
    elim (Bool-cases (is_array_name name)) [
      | inr plain ↦ named name t (ok-injective (rw (plain, get_type) at e))
      | inl brackets ↦
          let before = take (length name - 2) name in
          let (o, inner, last) =
            >>=-eq-ok (get_type fuel array_of before r) _ (rw (brackets, get_type) at e) in
          elim (Option-cases o) [
            | inl missing ↦ absurd (none-ne-some t (ok-injective (rw missing at last)))
            | inr (u, found) ↦
                let named_inner =
                  get_type-name fuel types array_of r before u arrays named (inner ∙ ap ok found) in
                let same = some-injective (array_of u) t (ok-injective (rw found at last)) in
                ap (λ k. (types k).name) (sym same)
                ∙ arrays u
                ∙ ap array_name named_inner
                ∙ array_name_cut name brackets
          ]
    ]

-- The name of an array of arrays, so many deep, and the type.
unfoldable pub deep_name : ℕ → Text → Text
unfolding array_name
deep_name zero name = name
deep_name (suc n) name = array_name (deep_name n name)

unfoldable pub deep_type : (ℕ → ℕ) → ℕ → ℕ → ℕ
deep_type array_of zero t = t
deep_type array_of (suc n) t = array_of (deep_type array_of n t)

length-deep_name : (n : ℕ) (name : Text) → length name ≤ length (deep_name n name)
unfolding deep_name array_name
length-deep_name zero name = omega arith
length-deep_name (suc n) name =
    omega (arith, length-deep_name n name, length-append (deep_name n name) (codes "[]"))

-- After a type with a name that is not empty and does not end in brackets is added, `getType` answers to
-- its name with any number of brackets behind it by the array type of that depth, when it is given one
-- more unit of fuel than there are pairs of brackets.
pub get_type-add_type :
    (n fuel : ℕ) (types : Types) (array_of : ℕ → ℕ) (r : Register) (t : ℕ)
    → n < fuel
    → 0 < length (types t).name
    → is_array_name (types t).name ≡ false
    → get_type fuel array_of (deep_name n (types t).name) (add_type types t r)
      ≡ ok (some (deep_type array_of n t))
unfolding get_type deep_name deep_type add_type array_type
get_type-add_type n zero types array_of r t enough long plain = absurd (omega arith)
get_type-add_type zero (suc fuel) types array_of r t enough long plain =
    rw
      (
        plain,
        get_type,
        lookup-insert (types t).name (types t).name t r,
        text_eq_refl (types t).name,
      )
      refl
get_type-add_type (suc n) (suc fuel) types array_of r t enough long plain =
    let inner = deep_name n (types t).name in
    let brackets =
      is_array_name-array_name inner (omega (arith, long, length-deep_name n (types t).name)) in
    rw
      (
        brackets,
        array_name-take inner,
        get_type,
        get_type-add_type n fuel types array_of r t (omega arith) long plain,
      )
      refl
