-- ===== src/Monitor/Probing.antt =====
-- The loop of the monitors that sets one gauge for each entry of a map.
use homeworld.Common.{
  ℕ, suc, ◌+◌, ◌*◌, ◌≤◌, String, ◌≡◌, refl, sym, ap, ◌∙◌, ◌≢◌, inl, inr, Bool, true, false, some,
  List, [], ◌∷◌, arith, ◌==◌, eq_iff, Bool-cases,
}
use homeworld.Common.Dict.{Dict, IsFresh, IsMap, lookup}
use homeworld.Monitor.{GaugeVec, IsGaugeVec, score, delta, probe_all, loop}

-- A cycle sleeps for a second at least, and the next begins no sooner than fifteen seconds later.
pub delta_bounds :
    (start finish : ℕ)
    → (1_000_000_000 ≤ delta start finish) × (start + 15_000_000_000 ≤ finish + delta start finish)
unfolding delta
delta_bounds start finish = ground arith

-- The turns that are not stopped, and so sleep.
abbrev pub sleeping : List Bool → ℕ
sleeping [] = 0
sleeping (true ∷ turns) = sleeping turns
sleeping (false ∷ turns) = suc (sleeping turns)

-- If no cycle turns the clock back and a sleep lasts as long as it is asked to, the loop of a monitor has
-- fifteen seconds for each turn that is not stopped.
loop_pace :
    {S : Type 0} (now : S → ℕ) (cycle : S → S) (sleep : ℕ → S → S)
    → ((s : S) → now s ≤ now (cycle s))
    → ((d : ℕ) (s : S) → now s + d ≤ now (sleep d s))
    → (turns : List Bool) (s : S)
    → now s + 15_000_000_000 * sleeping turns ≤ now (loop now cycle sleep turns s)
unfolding loop
loop_pace now cycle sleep forward lasts [] s = omega arith
loop_pace now cycle sleep forward lasts (true ∷ turns) s =
    omega (arith, forward s, loop_pace now cycle sleep forward lasts turns (cycle s))
loop_pace now cycle sleep forward lasts (false ∷ turns) s =
    let d = delta (now s) (now (cycle s)) in
    omega (
      arith,
      delta_bounds (now s) (now (cycle s)),
      lasts d (cycle s),
      loop_pace now cycle sleep forward lasts turns (sleep d (cycle s)),
    )

module _ {V : Type 0} (g : GaugeVec V) (laws : IsGaugeVec g) {A S : Type 0}
    (label : String → List String) (probe : String → A → S → Bool × S) where
  pub probe_all-Keeps :
      (P : S → Type 0)
      → ((key : String) (a : A) (s : S) → P s → P (probe key a s).1)
      → (m : Dict A) (v : V) (s : S) → P s
      → P (probe_all g label probe m (v, s)).1
  unfolding probe_all
  probe_all-Keeps P kept [] v s p = p
  probe_all-Keeps P kept ((key, a) ∷ m) v s p =
      probe_all-Keeps P kept m (g.set (label key) (score (probe key a s).0) v) (probe key a s).1
        (kept key a s p)

  -- Labels of other keys keep their values.
  abbrev pub AreOthers : List String → Dict A → Type 0
  AreOthers l [] = Unit
  AreOthers l ((key, a) ∷ m) = (label key ≢ l) × AreOthers l m

  pub probe_all_others :
      (l : List String) (m : Dict A) (v : V) (s : S)
      → AreOthers l m
      → g.value l (probe_all g label probe m (v, s)).0 ≡ g.value l v
  unfolding probe_all
  probe_all_others l [] v s other = refl
  probe_all_others l ((key, a) ∷ m) v s (ne, other) =
      probe_all_others l m (g.set (label key) (score (probe key a s).0) v) (probe key a s).1 other
      ∙ laws.value-set_ne l (label key) (score (probe key a s).0) v ne

  module _ (apart : (j k : String) → j ≢ k → label j ≢ label k) (P : S → Type 0)
      (kept : (key : String) (a : A) (s : S) → P s → P (probe key a s).1) where
    AreOthers-of_IsFresh : (key : String) (m : Dict A) → IsFresh key m → AreOthers (label key) m
    AreOthers-of_IsFresh key [] h = tt
    AreOthers-of_IsFresh key ((k, b) ∷ m) (ne, h) = (apart k key ne, AreOthers-of_IsFresh key m h)

    -- The gauge of a key is the verdict of its own probe, made in a state where `P` held.
    pub probe_all-Reports :
        (m : Dict A) (v : V) (s : S)
        → P s
        → IsMap m
        → (key : String) (a : A) → lookup key m ≡ some a
        → (t : S) × P t
          × (g.value (label key) (probe_all g label probe m (v, s)).0
              ≡ some (score (probe key a t).0))
    unfolding probe_all lookup
    probe_all-Reports [] v s p d key a e = cc
    probe_all-Reports ((k, b) ∷ m) v s p (fresh, d) key a e = elim (Bool-cases (k == key)) [
      | inr differs ↦
          probe_all-Reports m (g.set (label k) (score (probe k b s).0) v) (probe k b s).1
            (kept k b s p) d key a (rw differs at e)
      | inl same ↦
          let held : b ≡ a = let e' = rw same at e in cc in
          let named : k ≡ key = (eq_iff k key).0 same in
          (
            s,
            p,
            ap
                  (λ j.
                    g.value (label j)
                      (probe_all g label probe m
                        (g.set (label k) (score (probe k b s).0) v, (probe k b s).1)).0)
                  (sym named)
                ∙ probe_all_others (label k) m (g.set (label k) (score (probe k b s).0) v)
                    (probe k b s).1 (AreOthers-of_IsFresh k m fresh)
                ∙ laws.value-set_self (label k) (score (probe k b s).0) v
                ∙ ap (λ q. some (score (probe k q s).0)) held
                ∙ ap (λ j. some (score (probe j a s).0)) named,
          )
    ]
