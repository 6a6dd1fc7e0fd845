-- ===== src/Simulator/Collect.antt =====
-- What `collect` into a `HashMap` keeps, for the tables of crates/usahp-daemon/src/simulator.rs.
use usahp_core.Base.{
  ◌≡◌, ◌⊎◌, inl, inr, refl, ap, ◌∙◌, true, false, [], ◌∷◌, ◌++◌, none, some, ◌==◌, any, All,
  Bool-cases, arith,
}
use usahp_core.Str.{Str, str_eq}
use usahp_core.Collections.HashMap
use usahp_core.Collections.HashMap.{HashMap, get-insert}

-- If every pair of a key has one value, and there is one, collecting finds it.
pub get-collect_from :
    (k v : Str) (m l : HashMap Str Str)
    → All (λ e. (e.0 == k ≡ true → e.1 ≡ v)) l
    → (HashMap.get k m ≡ some v) ⊎ (any (λ e. e.0 == k) l ≡ true)
    → HashMap.get k (HashMap.collect_from m l) ≡ some v
unfolding HashMap.collect_from
get-collect_from k v m [] h (inl e) = e
get-collect_from k v m [] h (inr e) = absurd (cc (e))
get-collect_from k v m ((j, w) ∷ l) h o =
    get-collect_from k v (HashMap.insert j w m) l h.1 (moved (Bool-cases (j == k)) o)
  where
    moved :
        (j == k ≡ true) ⊎ (j == k ≡ false)
        → (HashMap.get k m ≡ some v) ⊎ (any (λ e. e.0 == k) ((j, w) ∷ l) ≡ true)
        → (HashMap.get k (HashMap.insert j w m) ≡ some v) ⊎ (any (λ e. e.0 == k) l ≡ true)
    moved (inl hit) p = inl (get-insert k j w m ∙ rw hit (ap some (h.0 hit)))
    moved (inr miss) (inl e) = inl (get-insert k j w m ∙ rw miss e)
    moved (inr miss) (inr e) = inr (ground arith)

pub collect_from-append :
    (m xs ys : HashMap Str Str)
    → HashMap.collect_from m (xs ++ ys) ≡ HashMap.collect_from (HashMap.collect_from m xs) ys
unfolding HashMap.collect_from
collect_from-append m [] ys = refl
collect_from-append m ((k, v) ∷ xs) ys = collect_from-append (HashMap.insert k v m) xs ys

pub get-collect_from-none :
    (k : Str) (m l : HashMap Str Str)
    → HashMap.get k m ≡ none
    → any (λ e. e.0 == k) l ≡ false
    → HashMap.get k (HashMap.collect_from m l) ≡ none
unfolding HashMap.collect_from
get-collect_from-none k m [] h o = h
get-collect_from-none k m ((j, w) ∷ l) h o =
    let miss : j == k ≡ false = ground arith in
    get-collect_from-none k (HashMap.insert j w m) l (get-insert k j w m ∙ rw miss h) (ground arith)
