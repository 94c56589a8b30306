-- ===== src/Database/Keeping.antt =====
-- src/database.rs, the keeper under concurrency: its invariant, and moves of single tasks.
use sqly.Shared.{
  ℕ, Bool, Bool-cases, subst, if◌then◌else◌, ◌≡◌, ◌⊎◌, ◌∙◌, ◌==◌, inl, inr, sym, true, false, arith,
}
use sqly.Database.Concurrent.{System, Phase, Verdict, enter, lease}

-- The pool is closed, and all its connections are back.
abbrev pub Settled : System → Type 0
Settled s = (s.closed ≡ true) × ((j : ℕ) → (s.tasks j).leased ≡ false)

-- What a task in `close` relies on.
abbrev pub Fits : Phase → System → Type 0
Fits Phase.draining s = s.closed ≡ true
Fits Phase.locking s = Settled s
Fits p s = Unit {0}

-- The keeper gives its connection up only when the pool is closed and all connections are back, and
-- the database counts as lost only if it has, or if a ping has failed.
pub record IsKept (s : System) : Type 0 where
  pub given_up : s.connected ≡ false → Settled s
  pub fits : (i : ℕ) → Fits (s.tasks i).phase s
  pub known_lost : s.lost ≡ true → (s.connected ≡ false) ⊎ (s.broken ≡ true)

pub Fits-move :
    (p : Phase) (s u : System)
    → (s.closed ≡ true → u.closed ≡ true)
    → (Settled s → Settled u)
    → Fits p s
    → Fits p u
Fits-move Phase.draining s u c z f = c f
Fits-move Phase.locking s u c z f = z f
Fits-move p s u c z f = tt

pub Fits-if :
    (b : Bool) (v : Verdict) (p : Phase) (s : System)
    → Fits p s
    → Fits (if b then Phase.checked v else p) s
Fits-if true v p s f = tt
Fits-if false v p s f = f

enter-leased :
    (i : ℕ) (p : Phase) (s : System) (j : ℕ) → ((enter i p s).tasks j).leased ≡ (s.tasks j).leased
unfolding enter
enter-leased i p s j = elim (Bool-cases (j == i)) [
  | inl same ↦ ground arith
  | inr other ↦ ground arith
]

enter-phase :
    (i : ℕ) (p : Phase) (s : System) (j : ℕ)
    → (((enter i p s).tasks j).phase ≡ p) ⊎ (((enter i p s).tasks j).phase ≡ (s.tasks j).phase)
unfolding enter
enter-phase i p s j = ground arith

enter-Settled : (i : ℕ) (p : Phase) (s : System) → Settled s → Settled (enter i p s)
unfolding enter
enter-Settled i p s (c, free) = (c, λ j. enter-leased i p s j ∙ free j)

enter-Fits : (i : ℕ) (p q : Phase) (s : System) → Fits q s → Fits q (enter i p s)
unfolding enter
enter-Fits i p q s f = Fits-move q s (enter i p s) (λ c. c) (enter-Settled i p s) f

pub enter-IsKept : (i : ℕ) (p : Phase) (s : System) → IsKept s → Fits p s → IsKept (enter i p s)
unfolding enter
enter-IsKept i p s k f = record {
  given_up = λ c. enter-Settled i p s (k.given_up c);
  fits = λ j. elim (enter-phase i p s j) [
    | inl new ↦ subst (λ q. Fits q (enter i p s)) (sym new) (enter-Fits i p p s f)
    | inr old ↦
        subst (λ q. Fits q (enter i p s)) (sym old) (enter-Fits i p (s.tasks j).phase s (k.fits j))
  ];
  known_lost = k.known_lost;
}

lease-leased :
    (i : ℕ) (b : Bool) (s : System) (j : ℕ)
    → (((lease i b s).tasks j).leased ≡ b) ⊎ (((lease i b s).tasks j).leased ≡ (s.tasks j).leased)
unfolding lease
lease-leased i b s j = ground arith

lease-phase :
    (i : ℕ) (b : Bool) (s : System) (j : ℕ) → ((lease i b s).tasks j).phase ≡ (s.tasks j).phase
unfolding lease
lease-phase i b s j = elim (Bool-cases (j == i)) [
  | inl same ↦ ground arith
  | inr other ↦ ground arith
]

pub lease-IsKept :
    (i : ℕ) (b : Bool) (s : System)
    → IsKept s
    → (s.closed ≡ true → b ≡ false)
    → IsKept (lease i b s)
unfolding lease
lease-IsKept i b s k h =
    let still : Settled s → Settled (lease i b s) = λ z. (
      z.0,
      λ (j : ℕ). elim (lease-leased i b s j) [ inl new ↦ new ∙ h z.0 | inr old ↦ old ∙ z.1 j ],
    ) in
    record {
      given_up = λ c. still (k.given_up c);
      fits = λ j.
          subst (λ q. Fits q (lease i b s)) (sym (lease-phase i b s j))
            (Fits-move (s.tasks j).phase s (lease i b s) (λ c. c) still (k.fits j));
      known_lost = k.known_lost;
    }
