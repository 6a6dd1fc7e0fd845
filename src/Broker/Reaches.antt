-- ===== src/Broker/Reaches.antt =====
-- Runs of the loop of crates/usahp-daemon/src/broker.rs that come to a state on the way.
use usahp_core.Base.{◌≡◌, refl, ap, ◌∙◌, List, [], ◌∷◌, ◌++◌, Option, none, some}
use usahp_core.Channel.{Channel}
use usahp_core.Capture.{Backend}
use usahp_core.Broker.Types.{Runtime}
use usahp_core.Broker.Loop.{Round, run, step}

module _ {S B : Type 0} ⦃ch : Channel S⦄ ⦃be : Backend B⦄ where
  -- The state after some of the rounds is one of these.
  pub record Reaches (P : Runtime S B → Type 0) (r : Runtime S B) (rounds : List (Round S))
      : Type 0 where
    pub before : List (Round S)
    pub after : List (Round S)
    pub at_end : Runtime S B
    pub split : rounds ≡ before ++ after
    pub ran : run r before ≡ some at_end
    pub met : P at_end

  pub after_round :
      (r q : Runtime S B) (x : Round S) (xs : List (Round S)) (o : Option (Runtime S B))
      → step r x.now x.uuid x.wake ≡ some q
      → run q xs ≡ o
      → run r (x ∷ xs) ≡ o
  unfolding run
  after_round r q x xs o e f = ap (λ o. elim o [ none ↦ none | some y ↦ run y xs ]) e ∙ f

  pub Reaches-first :
      (P : Runtime S B → Type 0) (r q : Runtime S B) (x : Round S) (xs : List (Round S))
      → step r x.now x.uuid x.wake ≡ some q
      → P q
      → Reaches P r (x ∷ xs)
  unfolding run
  Reaches-first P r q x xs f here = record {
    before = x ∷ [];
    after = xs;
    at_end = q;
    split = refl;
    ran = after_round r q x [] (some q) f refl;
    met = here;
  }

  pub Reaches-later :
      (P : Runtime S B → Type 0) (r q : Runtime S B) (x : Round S) (xs : List (Round S))
      → step r x.now x.uuid x.wake ≡ some q
      → Reaches P q xs
      → Reaches P r (x ∷ xs)
  Reaches-later P r q x xs f later = record {
    before = x ∷ later.before;
    after = later.after;
    at_end = later.at_end;
    split = ap (λ l. x ∷ l) later.split;
    ran = after_round r q x later.before (some later.at_end) f later.ran;
    met = later.met;
  }
