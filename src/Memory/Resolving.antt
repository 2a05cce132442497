-- ===== src/Memory/Resolving.antt =====
-- Feedback resolves one fire: the most recent one of its heuristic that waits.
use glady_s.Prelude.{
  ℕ, suc, ◌≡◌, ◌≢◌, refl, ap, inl, inr, String, Bool, true, false, ◌&&◌, Option, none, some, List,
  [], ◌∷◌, ◌==◌, arith, eq_iff,
}
use mathlib.Core.Path.{subst}
use mathlib.Core.Option.{some-injective}
use glady_s.Prelude.Tests.{leb, if◌then◌else◌, Bool-cases, Option-cases, if_both}
use glady_s.Prelude.Lists.{length, keep, exists}
use glady_s.Memory.{FireRow, Tables}
use glady_s.Memory.Fires.{
  waits_for, resolve, resolve_fire, later_of, most_recent, update_fire_outcome,
  update_most_recent_fire,
}

-- No id twice: the primary key of the table.
abbrev pub HasKeys : List FireRow → Type 0
HasKeys [] = Unit {0}
HasKeys (f ∷ fires) = (exists (λ (g : FireRow). g.id == f.id) fires ≡ false) × HasKeys fires

abbrev hit : (FireRow → Bool) → String → FireRow → Bool
hit p k g = p g && g.id == k

later_hit :
    (p : FireRow → Bool) (g : FireRow) (fires : List FireRow) (o : Option FireRow)
    → p g ≡ true
    → ((f : FireRow) → o ≡ some f → exists (hit p f.id) fires ≡ true)
    → exists (hit p (later_of g o).id) (g ∷ fires) ≡ true
later_hit p g fires none here later = ground (arith, eq_iff g.id g.id)
later_hit p g fires (some f) here later =
    if_both (λ (x : FireRow). exists (hit p x.id) (g ∷ fires) ≡ true) (leb f.fired_at g.fired_at)
      (ground (arith, eq_iff g.id g.id)) (ground (arith, later f refl))

most_recent-hit :
    (p : FireRow → Bool) (fires : List FireRow) (f : FireRow)
    → most_recent p fires ≡ some f
    → exists (hit p f.id) fires ≡ true
unfolding most_recent
most_recent-hit p [] f e = absurd (ground arith)
most_recent-hit p (g ∷ fires) f e = elim (Bool-cases (p g)) [
  | inl held ↦
      subst (λ (x : FireRow). exists (hit p x.id) (g ∷ fires) ≡ true)
        (some-injective _ _ (rw held at e))
        (later_hit p g fires (most_recent p fires) held (most_recent-hit p fires))
  | inr missed ↦ rw missed (most_recent-hit p fires f (rw missed at e))
]

resolve_absent :
    (k outcome source : String) (now : ℕ) (fires : List FireRow)
    → exists (λ (g : FireRow). g.id == k) fires ≡ false
    → resolve_fire k outcome source now fires ≡ fires
unfolding resolve_fire
resolve_absent k outcome source now [] h = refl
resolve_absent k outcome source now (f ∷ fires) h =
    ground (arith, resolve_absent k outcome source now fires)

no_other_hit :
    (p : FireRow → Bool) (k : String) (fires : List FireRow)
    → exists (λ (g : FireRow). g.id == k) fires ≡ false
    → exists (hit p k) fires ≡ false
no_other_hit p k [] h = refl
no_other_hit p k (f ∷ fires) h = ground (arith, no_other_hit p k fires)

if_longer :
    (f : FireRow) (xs ys : List FireRow) (b : Bool)
    → length xs ≡ suc (length ys)
    → length (if b then f ∷ xs else xs) ≡ suc (length (if b then f ∷ ys else ys))
if_longer f xs ys true e = ap suc e
if_longer f xs ys false e = e

-- Resolving a fire that waits takes exactly one from those that wait.
resolve_one :
    (p : FireRow → Bool) (k outcome source : String) (now : ℕ) (fires : List FireRow)
    → HasKeys fires
    → ((g : FireRow) → p (resolve outcome source now g) ≡ false)
    → exists (hit p k) fires ≡ true
    → length (keep p fires) ≡ suc (length (keep p (resolve_fire k outcome source now fires)))
unfolding resolve_fire
resolve_one p k outcome source now [] keys done h = absurd (ground arith)
resolve_one p k outcome source now (f ∷ fires) keys done h = elim (Bool-cases (f.id == k)) [
  | inl e ↦
      let absent : exists (λ (g : FireRow). g.id == k) fires ≡ false =
        subst (λ i. exists (λ (g : FireRow). g.id == i) fires ≡ false) ((eq_iff f.id k).0 e)
          keys.0 in
      let here : p f ≡ true = ground (arith, no_other_hit p k fires absent) in
      rw (e, here, done f, resolve_absent k outcome source now fires absent) refl
  | inr e ↦
      let ih = resolve_one p k outcome source now fires keys.1 done (ground arith) in
      rw e (if_longer f (keep p fires) (keep p (resolve_fire k outcome source now fires)) (p f) ih)
]

-- The fires of a heuristic that wait.
abbrev pub waiting : String → Tables → List FireRow
waiting heuristic_id t = keep (waits_for heuristic_id) t.heuristic_fires

none_waits :
    (p : FireRow → Bool) (fires : List FireRow) → most_recent p fires ≡ none → keep p fires ≡ []
unfolding most_recent
none_waits p [] e = refl
none_waits p (f ∷ fires) e = elim (Bool-cases (p f)) [
  | inl held ↦ absurd (ground (arith, (rw held at e)))
  | inr missed ↦ rw missed (none_waits p fires (rw missed at e))
]

hit_key :
    (p : FireRow → Bool) (k : String) (fires : List FireRow)
    → exists (hit p k) fires ≡ true
    → exists (λ (g : FireRow). g.id == k) fires ≡ true
hit_key p k [] h = h
hit_key p k (f ∷ fires) h = ground (arith, hit_key p k fires)

outcome_waiting :
    (id k outcome source : String) (now : ℕ) (t : Tables)
    → HasKeys t.heuristic_fires
    → outcome ≢ "unknown"
    → exists (hit (waits_for id) k) t.heuristic_fires ≡ true
    → let (t', found) = update_fire_outcome k outcome source now t in
      if found
      then length (waiting id t) ≡ suc (length (waiting id t'))
      else (waiting id t ≡ []) × (t' ≡ t)
unfolding update_fire_outcome
outcome_waiting id k outcome source now t keys known h =
    rw (hit_key (waits_for id) k t.heuristic_fires h) (
      resolve_one (waits_for id) k outcome source now t.heuristic_fires keys
        (λ g. ground (arith, eq_iff outcome "unknown")) h)

-- Where the fires have distinct ids, resolving with an outcome other than "unknown" takes exactly
-- one fire from those of the heuristic that wait, if there are any; else it finds none and changes
-- nothing.
pub update_most_recent_fire-waiting :
    (id outcome source : String) (now : ℕ) (t : Tables)
    → HasKeys t.heuristic_fires
    → outcome ≢ "unknown"
    → let (t', found) = update_most_recent_fire id outcome source now t in
      if found
      then length (waiting id t) ≡ suc (length (waiting id t'))
      else (waiting id t ≡ []) × (t' ≡ t)
unfolding update_most_recent_fire update_fire_outcome
update_most_recent_fire-waiting id outcome source now t keys known =
    elim (Option-cases (most_recent (waits_for id) t.heuristic_fires)) [
      | inl e ↦
          rw (e, update_most_recent_fire) (none_waits (waits_for id) t.heuristic_fires e, refl)
      | inr (f, e) ↦
          rw (e, update_most_recent_fire)
            (outcome_waiting id f.id outcome source now t keys known
              (most_recent-hit (waits_for id) t.heuristic_fires f e))
    ]
