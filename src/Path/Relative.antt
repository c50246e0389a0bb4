-- ===== src/Path/Relative.antt =====
-- `relativeTo`.
use experimaestro.Prelude.{
  ℕ, suc, ◌+◌, ◌≡◌, ◌≢◌, refl, ap, ◌∙◌, Bool, true, false, ◌||◌, ◌&&◌, Option, none, some, [], ◌∷◌,
  ◌++◌, Text, codes, text_eq, text_eq_refl, length, length-append, get_elem?, drop, ◌==◌,
  if◌then◌else◌, arith,
}
use experimaestro.Errors.{Result, ok, err, argument_error, undefined_behaviour, ◌>>=◌}
use experimaestro.Path.{FilePath, local, is_relative, slash}
use experimaestro.Path.Search.{Free, drop-suc-length}

-- `while (b[i] == _path[i])`, over what is left of the two texts at `i`; `last` is `last_slash`.
-- At its end a text reads as the terminating zero. Two equal terminators take the loop past them.
common : Text → Text → ℕ → ℕ → Result (ℕ × ℕ)
common [] [] i last = err undefined_behaviour
common [] (y ∷ ys) i last = if y == 0 then err undefined_behaviour else ok (i, last)
common (x ∷ xs) [] i last = if x == 0 then err undefined_behaviour else ok (i, last)
common (x ∷ xs) (y ∷ ys) i last =
    let rest = common xs ys (suc i) (if x == slash then i else last) in
    if x == y then rest else ok (i, last)

-- One step up for each slash that `find` meets.
ups : Text → Text
ups [] = []
ups (x ∷ xs) = if x == slash then codes "../" ++ ups xs else ups xs

at_slash : Option ℕ → Bool
at_slash none = false
at_slash (some c) = c == slash

-- What `relativeTo` does behind the first loop.
finish : Text → Text → ℕ → ℕ → FilePath
unfolding ups local at_slash
finish b path i last =
    if length b == i && length path == i
    then local (codes ".")
    else let last' = if length b == i && at_slash (get_elem? path i) then i else last in
      local (ups (drop (suc last') b) ++ drop (suc last') path)

unfoldable pub relative_to : FilePath → FilePath → Result FilePath
unfolding common finish is_relative
relative_to p other =
    if is_relative p || is_relative other
    then err argument_error
    else if text_eq p.share other.share
    then (do (i, last) ← common other.path p.path 0 0; ok (finish other.path p.path i last))
    else ok p

common-prefix :
    (b rest : Text) (i last : ℕ)
    → (last' : ℕ) × (common b (b ++ slash ∷ rest) i last ≡ ok (i + length b, last'))
unfolding common
common-prefix [] rest i last = (last, ground arith)
common-prefix (x ∷ xs) rest i last =
    let (l, e) = common-prefix xs rest (suc i) (if x == slash then i else last) in
    (l, ground (arith, e))

==_refl : (n : ℕ) → (n == n) ≡ true
==_refl n = ground arith

get_elem?-append : (b rest : Text) → get_elem? (b ++ slash ∷ rest) (length b) ≡ some slash
get_elem?-append [] rest = refl
get_elem?-append (x ∷ xs) rest = get_elem?-append xs rest

drop_all : (b : Text) → drop (suc (length b)) b ≡ []
drop_all [] = refl
drop_all (x ∷ xs) = drop_all xs

finish-prefix :
    (b rest : Text) (last : ℕ) → finish b (b ++ slash ∷ rest) (length b) last ≡ local rest
unfolding finish
finish-prefix b rest last = rw (
  ==_refl (length b),
  longer,
  get_elem?-append b rest,
  drop_all b,
  drop-suc-length b rest slash,
  finish,
)
  where
    longer : (length (b ++ slash ∷ rest) == length b) ≡ false
    longer = ground (arith, length-append b (slash ∷ rest))

common-same : (b : Text) (i last : ℕ) → common b b i last ≡ err undefined_behaviour
unfolding common
common-same [] i last = refl
common-same (x ∷ xs) i last =
    ground (arith, common-same xs (suc i) (if x == slash then i else last))

zero-add : (n : ℕ) → 0 + n ≡ n
zero-add n = omega arith

-- `relativeTo` behind its guards.
relative_to-absolute :
    (share path b : Text)
    → relative_to
        (record { share = share; path = slash ∷ path })
        (record { share = share; path = slash ∷ b })
      ≡ (do
        (i, last) ← common (slash ∷ b) (slash ∷ path) 0 0
        ok (finish (slash ∷ b) (slash ∷ path) i last))
unfolding relative_to
relative_to-absolute share path b = rw (text_eq_refl share)

-- Of a path below an absolute directory, `relativeTo` gives what follows the directory and a slash.
relative_to-below :
    (share b rest : Text)
    → relative_to
        (record { share = share; path = slash ∷ (b ++ slash ∷ rest) })
        (record { share = share; path = slash ∷ b })
      ≡ ok (local rest)
relative_to-below share b rest =
    let (last, e) = common-prefix (slash ∷ b) rest 0 0 in
    relative_to-absolute share (b ++ slash ∷ rest) b
    ∙ rw (e, zero-add) (ap ok (finish-prefix (slash ∷ b) rest last))

-- Against itself every absolute path makes the loop read past the end of both texts.
relative_to_self :
    (share path : Text)
    → let p : FilePath = record { share = share; path = slash ∷ path } in
      relative_to p p ≡ err undefined_behaviour
relative_to_self share path =
    relative_to-absolute share path path ∙ rw (common-same (slash ∷ path) 0 0)

common-siblings :
    (dir : Text) (x y : ℕ) (xs ys : Text) (i last : ℕ)
    → x ≢ y
    → common (dir ++ slash ∷ (x ∷ xs)) (dir ++ slash ∷ (y ∷ ys)) i last
      ≡ ok (suc (i + length dir), i + length dir)
unfolding common
common-siblings [] x y xs ys i last h = ground arith
common-siblings (d ∷ dir) x y xs ys i last h =
    ground (arith, common-siblings dir x y xs ys (suc i) (if d == slash then i else last) h)

ups-Free : (s : Text) → Free slash s → ups s ≡ []
unfolding ups
ups-Free [] h = refl
ups-Free (x ∷ xs) h = ground (arith, ups-Free xs h.1)

finish-siblings :
    (dir : Text) (x y : ℕ) (xs ys : Text)
    → Free slash (x ∷ xs)
    → finish (dir ++ slash ∷ (x ∷ xs)) (dir ++ slash ∷ (y ∷ ys)) (suc (length dir)) (length dir)
      ≡ local (y ∷ ys)
unfolding finish
finish-siblings dir x y xs ys h = rw (
  shorter,
  drop-suc-length dir (x ∷ xs) slash,
  drop-suc-length dir (y ∷ ys) slash,
  ups-Free (x ∷ xs) h,
  finish,
)
  where
    shorter : (length (dir ++ slash ∷ (x ∷ xs)) == suc (length dir)) ≡ false
    shorter = ground (arith, length-append dir (slash ∷ (x ∷ xs)))

-- For two entries of one absolute directory whose names begin differently, where that of the second
-- has no slash, `relativeTo` gives the bare name of the first, without a step up.
relative_to-sibling :
    (share dir : Text) (x y : ℕ) (xs ys : Text)
    → x ≢ y
    → Free slash (x ∷ xs)
    → relative_to
        (record { share = share; path = slash ∷ (dir ++ slash ∷ (y ∷ ys)) })
        (record { share = share; path = slash ∷ (dir ++ slash ∷ (x ∷ xs)) })
      ≡ ok (local (y ∷ ys))
relative_to-sibling share dir x y xs ys h flat =
    relative_to-absolute share (dir ++ slash ∷ (y ∷ ys)) (dir ++ slash ∷ (x ∷ xs))
    ∙ rw (common-siblings (slash ∷ dir) x y xs ys 0 0 h, zero-add)
        (ap ok (finish-siblings (slash ∷ dir) x y xs ys flat))
