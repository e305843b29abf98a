-- ===== src/Sampler/History.antt =====
-- The statuses that a whole thread announces, for any loop whose rounds are lawful.
use ocdscope.Prelude.{
  ◌≡◌, refl, sym, ap, ◌∙◌, ◌⊎◌, inl, inr, true, false, List, [], ◌∷◌, ◌++◌, Bool-cases,
}
use mathlib.Core.Path.{subst}
use ocdscope.Sampler.{
  blocked, Status, initializing, sampling, paused, terminated, same_status, Effect, Next, continue,
  finished, failed_with, waits, died, report, after, run_on, run,
}
use ocdscope.Sampler.Lifecycle.{Moves, announced, statuses, statuses-append, IsLawful}

-- Each status differs from the one before it and may follow it, or is `Terminated`.
abbrev pub IsHistory : Status → List Status → Type 0
IsHistory s [] = Unit
IsHistory s (x ∷ xs) = ((Moves s x × (same_status x s ≡ false)) ⊎ (x ≡ terminated)) × IsHistory x xs

-- The status after the changes.
abbrev pub last_status : Status → List Status → Status
last_status s [] = s
last_status s (x ∷ xs) = last_status x xs

IsHistory-append :
    (s : Status) (xs ys : List Status)
    → IsHistory s xs
    → IsHistory (last_status s xs) ys
    → IsHistory s (xs ++ ys)
IsHistory-append s [] ys h k = k
IsHistory-append s (x ∷ xs) ys (m, h) k = (m, IsHistory-append x xs ys h k)

pub IsHistory-split :
    (s : Status) (xs ys : List Status)
    → IsHistory s (xs ++ ys)
    → IsHistory s xs × IsHistory (last_status s xs) ys
IsHistory-split s [] ys h = (tt, h)
IsHistory-split s (x ∷ xs) ys (m, h) =
    let (left, right) = IsHistory-split x xs ys h in ((m, left), right)

pub last_status-append :
    (s : Status) (xs ys : List Status)
    → last_status s (xs ++ ys) ≡ last_status (last_status s xs) ys
last_status-append s [] ys = refl
last_status-append s (x ∷ xs) ys = last_status-append x xs ys

pub same_status-eq : (a b : Status) → same_status a b ≡ true → a ≡ b
unfolding same_status
same_status-eq initializing initializing e = refl
same_status-eq initializing sampling e = cc
same_status-eq initializing paused e = cc
same_status-eq initializing terminated e = cc
same_status-eq sampling initializing e = cc
same_status-eq sampling sampling e = refl
same_status-eq sampling paused e = cc
same_status-eq sampling terminated e = cc
same_status-eq paused initializing e = cc
same_status-eq paused sampling e = cc
same_status-eq paused paused e = refl
same_status-eq paused terminated e = cc
same_status-eq terminated initializing e = cc
same_status-eq terminated sampling e = cc
same_status-eq terminated paused e = cc
same_status-eq terminated terminated e = refl

-- A history that ends in the status `t`.
abbrev pub Leads : Status → List Status → Status → Type 0
Leads s xs t = IsHistory s xs × (last_status s xs ≡ t)

Leads-append :
    (s : Status) (xs : List Status) (t : Status) (ys : List Status) (u : Status)
    → Leads s xs t
    → Leads t ys u
    → Leads s (xs ++ ys) u
Leads-append s xs t ys u (h, e) (k, f) = (
  IsHistory-append s xs ys h (subst (λ z. IsHistory z ys) (sym e) k),
  last_status-append s xs ys ∙ ap (λ z. last_status z ys) e ∙ f,
)

announced-Leads : (s t : Status) → Moves s t → Leads s (announced s t) t
announced-Leads s t m = elim (Bool-cases (same_status t s)) [
  | inr e ↦ rw e ((inl (m, e), tt), refl)
  | inl e ↦ rw e (tt, sym (same_status-eq t s e))
]

module _ {S : Type 0} (status_of : S → Status) where
  -- The status with which a thread goes on or has ended, or in which it panicked.
  abbrev pub end_status : Next S → Status
  end_status (continue t) = status_of t
  end_status finished = terminated
  end_status (failed_with f) = terminated
  end_status (waits t) = status_of t
  end_status (blocked t) = status_of t
  end_status (died t) = status_of t

module _ {V S R : Type 0} (status_of : S → Status) (round : S → R → List (Effect V) × Next S) where
  -- What was announced leads to the status of the thread while it goes on or where it panicked, and
  -- to `Terminated` once it has ended, well or with an error.
  abbrev pub Announces : Status → List (Effect V) × Next S → Type 0
  Announces s (es, continue t) = Leads s (statuses es) (status_of t)
  Announces s (es, finished) = Leads s (statuses es) terminated
  Announces s (es, failed_with f) = Leads s (statuses es) terminated
  Announces s (es, waits t) = Leads s (statuses es) (status_of t)
  Announces s (es, blocked t) = Leads s (statuses es) (status_of t)
  Announces s (es, died t) = Leads s (statuses es) (status_of t)

  pub Announces-Leads :
      (s : Status) (r : List (Effect V) × Next S)
      → Announces s r
      → Leads s (statuses r.0) (end_status status_of r.1)
  Announces-Leads s (es, continue t) h = h
  Announces-Leads s (es, finished) h = h
  Announces-Leads s (es, failed_with f) h = h
  Announces-Leads s (es, waits t) h = h
  Announces-Leads s (es, blocked t) h = h
  Announces-Leads s (es, died t) h = h

  after-Announces :
      (s u : Status) (es : List (Effect V)) (r : List (Effect V) × Next S)
      → Leads s (statuses es) u
      → Announces u r
      → Announces s (after es r)
  after-Announces s u es (es', continue t) h k =
      rw (statuses-append es es') (Leads-append s _ u _ _ h k)
  after-Announces s u es (es', finished) h k =
      rw (statuses-append es es') (Leads-append s _ u _ _ h k)
  after-Announces s u es (es', failed_with f) h k =
      rw (statuses-append es es') (Leads-append s _ u _ _ h k)
  after-Announces s u es (es', waits t) h k =
      rw (statuses-append es es') (Leads-append s _ u _ _ h k)
  after-Announces s u es (es', blocked t) h k =
      rw (statuses-append es es') (Leads-append s _ u _ _ h k)
  after-Announces s u es (es', died t) h k =
      rw (statuses-append es es') (Leads-append s _ u _ _ h k)

  run_on-Announces :
      (s : Status) (rest : S → List (Effect V) × Next S) (r : List (Effect V) × Next S)
      → IsLawful status_of s r
      → ((t : S) → Announces (status_of t) (rest t))
      → Announces s (run_on rest r)
  unfolding run_on report statuses
  run_on-Announces s rest (es, continue t) (m, e) h =
      after-Announces s (status_of t) es (rest t)
        (subst (λ l. Leads s l (status_of t)) (sym e) (announced-Leads s (status_of t) m)) (h t)
  run_on-Announces s rest (es, finished) (p, e) h =
      subst (λ l. Leads s l terminated) (sym e) (tt, p)
  run_on-Announces s rest (es, failed_with f) e h =
      let all : statuses (es ++ report f) ≡ terminated ∷ [] =
        statuses-append es (report f) ∙ ap (λ l. l ++ terminated ∷ []) e in
      subst (λ l. Leads s l terminated) (sym all) ((inr refl, tt), refl)
  run_on-Announces s rest (es, waits t) (p, e) h =
      subst (λ l. Leads s l (status_of t)) (sym e) (tt, sym p)
  run_on-Announces s rest (es, blocked t) (p, e) h =
      subst (λ l. Leads s l (status_of t)) (sym e) (tt, sym p)
  run_on-Announces s rest (es, died t) (p, e) h =
      subst (λ l. Leads s l (status_of t)) (sym e) (tt, sym p)

  pub run-Announces :
      ((t : S) (r : R) → IsLawful status_of (status_of t) (round t r))
      → (rs : List R) (t : S) → Announces (status_of t) (run round rs t)
  unfolding run statuses
  run-Announces law [] t = (tt, refl)
  run-Announces law (r ∷ rs) t =
      run_on-Announces (status_of t) (run round rs) (round t r) (law t r) (run-Announces law rs)
