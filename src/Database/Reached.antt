-- ===== src/Database/Reached.antt =====
-- src/database.rs, the keeper under concurrency: what holds in every order of steps.
use sqly.Shared.{
  ap, ℕ, Bool, Bool-cases, subst, ◌≡◌, ◌⊎◌, ◌∙◌, inl, inr, refl, sym, true, false, arith,
}
use sqly.Database.Concurrent.{System, Phase, Verdict, Step, Reaches, opened}
use sqly.Database.Keeping.{Settled, Fits, IsKept, Fits-move, Fits-if, enter-IsKept, lease-IsKept}

-- A change of the flags, before the task moves on.
flags-IsKept :
    (s u : System)
    → IsKept s
    → u.tasks ≡ s.tasks
    → (s.closed ≡ true → u.closed ≡ true)
    → (u.connected ≡ false → Settled s)
    → (u.lost ≡ true → (u.connected ≡ false) ⊎ (u.broken ≡ true))
    → IsKept u
flags-IsKept s u k same c g l =
    let still : Settled s → Settled u = λ z. (c z.0, λ j. ap (λ ts. (ts j).leased) same ∙ z.1 j) in
    record {
      given_up = λ h. still (g h);
      fits = λ j.
          subst (λ q. Fits q u) (sym (ap (λ ts. (ts j).phase) same))
            (Fits-move (s.tasks j).phase s u c still (k.fits j));
      known_lost = l;
    }

held-IsKept : (b : Bool) (s : System) → IsKept s → IsKept (record s { held = b })
held-IsKept b s k = flags-IsKept s (record s { held = b }) k refl (λ c. c) k.given_up k.known_lost

locking-Settled : (i : ℕ) (s : System) → IsKept s → (s.tasks i).phase ≡ Phase.locking → Settled s
locking-Settled i s k e = subst (λ q. Fits q s) e (k.fits i)

draining-closed :
    (i : ℕ) (s : System) → IsKept s → (s.tasks i).phase ≡ Phase.draining → s.closed ≡ true
draining-closed i s k e = subst (λ q. Fits q s) e (k.fits i)

pub Step-IsKept : {s t : System} → IsKept s → Step s t → IsKept t
Step-IsKept k (Step.acquires i s free) = lease-IsKept i true s k (λ c. absurd (ground arith))
Step-IsKept k (Step.releases i s) = lease-IsKept i false s k (λ c. refl)
Step-IsKept k (Step.checks i s e) = enter-IsKept i Phase.checking s k tt
Step-IsKept k (Step.checks_lease i s e l) = enter-IsKept i Phase.keeping s k tt
Step-IsKept k (Step.reads_lost i s e) =
    enter-IsKept i _ s k (Fits-if s.lost Verdict.database_lost Phase.unlost s tt)
Step-IsKept k (Step.reads_closed i s e) =
    enter-IsKept i _ s k (Fits-if s.closed Verdict.pool_closed Phase.keeping s tt)
Step-IsKept k (Step.reads_lost_again i s e) =
    enter-IsKept i _ s k (Fits-if s.lost Verdict.database_lost Phase.waiting s tt)
Step-IsKept k (Step.locks i s e f c) = enter-IsKept i Phase.pinging _ (held-IsKept true s k) tt
Step-IsKept k (Step.misses i s e f c) =
    enter-IsKept i (Phase.checked Verdict.database_lost) (record s { lost = true })
      (flags-IsKept s (record s { lost = true }) k refl (λ d. d) k.given_up (λ l. inl c)) tt
Step-IsKept k (Step.answers i s e) =
    enter-IsKept i (Phase.checked Verdict.healthy) _ (held-IsKept false s k) tt
Step-IsKept k (Step.fails i s e) =
    let u = record s { held = false; lost = true; broken = true } in
    enter-IsKept i (Phase.checked Verdict.database_lost) u
      (flags-IsKept s u k refl (λ d. d) k.given_up (λ l. inr refl)) tt
Step-IsKept k (Step.closes i s e) =
    let u = record s { closed = true } in
    enter-IsKept i Phase.draining u (flags-IsKept s u k refl (λ d. refl) k.given_up k.known_lost)
      refl
Step-IsKept k (Step.drains i s e free) =
    enter-IsKept i Phase.locking s k (draining-closed i s k e, free)
Step-IsKept k (Step.takes i s e f) =
    let u = record s { held = true; connected = false } in
    enter-IsKept i Phase.emptying u
      (flags-IsKept s u k refl (λ d. d) (λ c. locking-Settled i s k e) (λ l. inl refl)) tt
Step-IsKept k (Step.ends i s e) = enter-IsKept i Phase.idle _ (held-IsKept false s k) tt
Step-IsKept k (Step.returns i s) = enter-IsKept i Phase.idle _ (held-IsKept _ s k) tt

opened-IsKept : IsKept opened
opened-IsKept = record {
  given_up = λ c. absurd (ground arith);
  fits = λ i. tt;
  known_lost = λ l. absurd (ground arith);
}

Reaches-IsKept : {s t : System} → IsKept s → Reaches s t → IsKept t
Reaches-IsKept k (Reaches.here s) = k
Reaches-IsKept k (Reaches.step r e) = Step-IsKept (Reaches-IsKept k r) e

leased-connected : (s : System) (i : ℕ) → IsKept s → (s.tasks i).leased ≡ true → s.connected ≡ true
leased-connected s i k l = elim (Bool-cases s.connected) [
  | inl here ↦ here
  | inr gone ↦ absurd (ground (arith, (k.given_up gone).1 i))
]

connected-alive : (s : System) → IsKept s → s.connected ≡ true → s.broken ≡ false → s.lost ≡ false
connected-alive s k c b = elim (Bool-cases s.lost) [
  | inr alive ↦ alive
  | inl lost ↦ elim (k.known_lost lost) [
    | inl gone ↦ absurd (ground arith)
    | inr broken ↦ absurd (ground arith)
  ]
]

-- Whatever tasks check, close and use the database, in any order: as long as any of them has a
-- connection of the pool, the keeper has its own, and unless a ping of it has failed the database
-- does not count as lost. The keeper gives its connection up only behind a closed pool.
pub reached_lem :
    (s : System)
    → Reaches opened s
    → ((i : ℕ)
        → (s.tasks i).leased ≡ true
        → (s.connected ≡ true) × (s.broken ≡ false → s.lost ≡ false))
      × (s.connected ≡ false → s.closed ≡ true)
reached_lem s r =
    let k = Reaches-IsKept opened-IsKept r in
    (
      λ i l. let here = leased-connected s i k l in (here, λ b. connected-alive s k here b),
      λ c. (k.given_up c).0,
    )
