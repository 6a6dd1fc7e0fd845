-- ===== src/Collections/BTreeSet.antt =====
-- `BTreeSet<String>` as the ascending list of its elements.
use usahp_core.Base.{
  suc, ◌≡◌, refl, Bool, true, false, not, ◌&&◌, ◌||◌, List, [], ◌∷◌, arith, ◌==◌, eq_iff,
  if◌then◌else◌, length,
}
use usahp_core.Str.{Str, str_eq, str_ltb}

abbrev pub BTreeSet : Type 0
BTreeSet = List Str

abbrev pub is_empty : BTreeSet → Bool
is_empty [] = true
is_empty (x ∷ s) = false

unfoldable pub contains : Str → BTreeSet → Bool
contains a [] = false
contains a (x ∷ s) = x == a || contains a s

-- The set after `insert`; its result is whether the element was not there before.
unfoldable pub insert : Str → BTreeSet → BTreeSet
insert a [] = a ∷ []
insert a (x ∷ s) = if x == a then x ∷ s else if str_ltb a x then a ∷ x ∷ s else x ∷ insert a s

-- The set after `remove`; its result is whether the element was there before.
unfoldable pub remove : Str → BTreeSet → BTreeSet
remove a [] = []
remove a (x ∷ s) = let rest = remove a s in if x == a then rest else x ∷ rest

pub contains-insert :
    (a b : Str) (s : BTreeSet) → contains b (insert a s) ≡ (a == b || contains b s)
unfolding contains insert
contains-insert a b [] = ground arith
contains-insert a b (x ∷ s) =
    ground (arith, eq_iff x a, eq_iff x b, eq_iff a b, contains-insert a b s)

pub contains-remove :
    (a b : Str) (s : BTreeSet) → contains b (remove a s) ≡ (not (a == b) && contains b s)
unfolding contains remove
contains-remove a b [] = ground arith
contains-remove a b (x ∷ s) =
    ground (arith, eq_iff x a, eq_iff x b, eq_iff a b, contains-remove a b s)

-- A new element adds one to the length.
pub length-insert :
    (a : Str) (s : BTreeSet) → contains a s ≡ false → length (insert a s) ≡ suc (length s)
unfolding contains insert
length-insert a [] h = refl
length-insert a (x ∷ s) h = ground (arith, length-insert a s)

pub insert-not_empty : (a : Str) (s : BTreeSet) → is_empty (insert a s) ≡ false
unfolding insert
insert-not_empty a [] = refl
insert-not_empty a (x ∷ s) = ground arith

pub contains-not_empty : (a : Str) (s : BTreeSet) → contains a s ≡ true → is_empty s ≡ false
unfolding contains
contains-not_empty a [] h = ground arith
contains-not_empty a (x ∷ s) h = refl
