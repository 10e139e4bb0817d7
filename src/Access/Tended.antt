-- ===== src/Access/Tended.antt =====
-- The port-forwards that are started for mounts are tended: each one runs for a mount that was set
-- up, or was terminated. `setup_local_sshfs_mount`, and the mounts of `open_notebook`.
use mathlib.Core.Path.{subst}
use marimo_operator.Base.{ℕ, Text, length, ◌≡◌, ◌⊎◌, inl, inr, true, false, Option, some, List, ◌∷◌}
use marimo_operator.Access.Cleanup.{Occurs, older, Serving, first, later}
use marimo_operator.Exec.{Event, started, stopped, Outside}
use marimo_operator.Sshfs.Keeps.{Serves}
use marimo_operator.Sshfs.Traces.{is_calm, grown-Serves}

-- A background program was started; its handle is the number of the events before.
pub data StartedAt (handle : ℕ) : List Event → Type 0 where
  begun :
      {cmd : List Text} → {t : List Event} → length t ≡ handle → StartedAt handle (started cmd ∷ t)
  before : {e : Event} → {t : List Event} → StartedAt handle t → StartedAt handle (e ∷ t)

pub record Tended (procs : List (Text × Option ℕ)) (t : List Event) : Type 0 where
  pub tends : (handle : ℕ) → StartedAt handle t → Occurs (stopped handle) t ⊎ Serving handle procs

tends_older :
    {procs : List (Text × Option ℕ)} {t : List Event} (e : Event) (handle : ℕ)
    → Occurs (stopped handle) t ⊎ Serving handle procs
    → Occurs (stopped handle) (e ∷ t) ⊎ Serving handle procs
tends_older e handle (inl o) = inl (older o)
tends_older e handle (inr s) = inr s

calm-Tended :
    (procs : List (Text × Option ℕ)) (e : Event) (t : List Event)
    → is_calm e ≡ true
    → Tended procs t
    → Tended procs (e ∷ t)
calm-Tended procs e t calm h = record { tends = λ handle s. by_start e calm handle s }
  where
    by_start :
        (f : Event)
        → is_calm f ≡ true
        → (handle : ℕ) → StartedAt handle (f ∷ t)
        → Occurs (stopped handle) (f ∷ t) ⊎ Serving handle procs
    by_start f calm handle (begun k) = absurd (not_calm (unfold is_calm in calm))
      where
        not_calm : false ≡ true → ⊥
        not_calm d = cc
    by_start f calm handle (before s) = tends_older f handle (h.tends handle s)

pub Tended-Serves :
    (o : Outside) (procs : List (Text × Option ℕ)) → Serves o (λ w. Tended procs w.trace)
Tended-Serves o procs = grown-Serves o (Tended procs) (calm-Tended procs)

-- More mounts tend at least as well.
pub Tended-mono :
    {ps qs : List (Text × Option ℕ)} {t : List Event}
    → ((handle : ℕ) → Serving handle ps → Occurs (stopped handle) t ⊎ Serving handle qs)
    → Tended ps t
    → Tended qs t
Tended-mono {ps} {qs} {t} f h = record { tends = λ handle s. by_start handle (h.tends handle s) }
  where
    by_start :
        (handle : ℕ)
        → Occurs (stopped handle) t ⊎ Serving handle ps
        → Occurs (stopped handle) t ⊎ Serving handle qs
    by_start handle (inl o) = inl o
    by_start handle (inr s) = f handle s

pub started-Tended :
    (local : Text) (ps : List (Text × Option ℕ)) (cmd : List Text) (t : List Event)
    → Tended ps t
    → Tended ((local, some (length t)) ∷ ps) (started cmd ∷ t)
started-Tended local ps cmd t h = record { tends = λ handle s. by_start handle s }
  where
    by_start :
        (handle : ℕ)
        → StartedAt handle (started cmd ∷ t)
        → Occurs (stopped handle) (started cmd ∷ t) ⊎ Serving handle ((local, some (length t)) ∷ ps)
    by_start handle (begun k) = inr (subst (λ n. Serving n ((local, some (length t)) ∷ ps)) k first)
    by_start handle (before s) = elim (h.tends handle s) [
      | inl o ↦ inl (older o)
      | inr r ↦ inr (later r)
    ]
