-- ===== src/Focus.antt =====
-- crates/usahp-daemon/src/focus_watcher.rs. The Objective-C runtime is a record of functions of the
-- moment of the poll, with 0 for a null pointer; the result of a send is ignored there too.
pub mod Sessions
use usahp_core.Str.{Str, str}
use usahp_core.Base.{
  map, ◌||◌, ℕ, ◌≡◌, refl, sym, ◌∙◌, ap, Bool, true, false, List, [], ◌∷◌, Option, none, some,
  nat_eqb, if◌then◌else◌, Bool-cases, inl, inr, arith,
}

-- The calls of `frontmost_pid`: two lookups by name, and the message sends. A process identifier is an
-- `i32`: its sign, and its size.
pub record ObjectiveC : Type 0 where
  pub get_class : Str → ℕ
  pub register_name : Str → ℕ
  pub send : ℕ → ℕ → ℕ
  pub send_int : ℕ → ℕ → Bool × ℕ

-- `pid > 0`
abbrev pub positive : Bool × ℕ → Option ℕ
positive (negative, pid) = if negative || nat_eqb pid 0 then none else some pid

unfoldable pub frontmost_pid : ObjectiveC → Option ℕ
frontmost_pid objc =
    let class = objc.get_class (str "NSWorkspace") in
    let workspace = objc.send class (objc.register_name (str "sharedWorkspace")) in
    let app = objc.send workspace (objc.register_name (str "frontmostApplication")) in
    if nat_eqb class 0
    then none
    else if nat_eqb workspace 0
    then none
    else if nat_eqb app 0
    then none
    else positive (objc.send_int app (objc.register_name (str "processIdentifier")))

abbrev pub same_pid : Option ℕ → Option ℕ → Bool
same_pid none none = true
same_pid none (some q) = false
same_pid (some p) none = false
same_pid (some p) (some q) = nat_eqb p q

-- The loop of `spawn`, over the answers of its polls: what it sends as `FocusChanged`, poll by poll.
unfoldable pub watch : Option ℕ → List (Option ℕ) → List (Option ℕ)
watch last_pid [] = []
watch last_pid (pid ∷ polls) =
    let unchanged = watch last_pid polls in
    let changed = watch pid polls in if same_pid pid last_pid then unchanged else pid ∷ changed

-- `spawn`, from the first answer on: the runtime at the start, and at each poll.
unfoldable pub spawn : ObjectiveC → List ObjectiveC → List (Option ℕ)
unfolding watch frontmost_pid
spawn first polls = watch (frontmost_pid first) (map frontmost_pid polls)

-- The last of a first entry and others.
abbrev last : Option ℕ → List (Option ℕ) → Option ℕ
last p [] = p
last p (q ∷ ps) = last q ps

-- No two neighbours are equal.
abbrev IsAlternating : Option ℕ → List (Option ℕ) → Type 0
IsAlternating p [] = Unit {0}
IsAlternating p (q ∷ ps) = (same_pid q p ≡ false) × IsAlternating q ps

same_pid_sound : (p q : Option ℕ) → same_pid p q ≡ true → p ≡ q
same_pid_sound none none h = refl
same_pid_sound none (some q) h = absurd (cc (h))
same_pid_sound (some p) none h = absurd (cc (h))
same_pid_sound (some p) (some q) h = ap some (ground arith)

-- What is sent ends where the polls end, so the broker's picture of the focus is the latest one; and
-- every entry differs from the one before it, the first from the application at the start.
watch_lem :
    (p : Option ℕ) (polls : List (Option ℕ))
    → (last p (watch p polls) ≡ last p polls) × IsAlternating p (watch p polls)
unfolding watch
watch_lem p [] = (refl, tt)
watch_lem p (q ∷ polls) = elim (Bool-cases (same_pid q p)) [
  | inl same ↦
      let rest = watch_lem p polls in
      rw same (rest.0 ∙ ap (λ x. last x polls) (sym (same_pid_sound q p same)), rest.1)
  | inr differ ↦ let rest = watch_lem q polls in rw differ (rest.0, (differ, rest.1))
]
