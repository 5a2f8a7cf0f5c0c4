-- ===== src/VLog/Kept.antt =====
-- A read that succeeded reads the same after an Append.
use lightkv.Prelude.{
  ℕ, ◌+◌, ◌^◌, ◌≤◌, ◌<◌, ◌≡◌, inl, inr, refl, sym, ap, ◌∙◌, subst, arith, Bool, Bool-cases,
  Option-cases, some, List, length, ◌==◌,
}
use lightkv.VLog.{
  VLog, ok, VLogManager, append, read_log, find_log, file_bytes, read_closed, read_with, read,
}
use lightkv.VLog.Pointers.{CanMap, IsOpen, contents, contents_open, open_log-file, find_cached}
use lightkv.VLog.Appends.{append_pointer}

read_log-inside :
    (offset len : ℕ) (v : VLog) (x : List ℕ)
    → read_log offset len v ≡ ok x
    → offset + len ≤ length v.file
unfolding read_log
read_log-inside offset len v x e = ground arith

module _ (can_map : ℕ → Bool) (can : CanMap can_map) where
  read_closed-inside :
      (id offset len : ℕ) (m : VLogManager) (o : IsOpen m) (x : List ℕ)
      → (read_closed can_map id offset len m).0 ≡ ok x
      → offset + len ≤ length (file_bytes id m.disk)
  unfolding read_closed
  read_closed-inside id offset len m o x e = elim (Option-cases (find_log id m.read_cache)) [
    | inr (v, cached) ↦
        let (mapped, same) = find_cached id o.log.file_id m.disk v m.read_cache o.cached cached in
        subst (λ b. offset + len ≤ length b) same
          (read_log-inside offset len v x (rw (cached, read_closed) at e))
    | inl missing ↦
        let (v, opened, same, mapped, number) =
          open_log-file can_map can id (file_bytes id m.disk) in
        subst (λ b. offset + len ≤ length b) same
          (read_log-inside offset len v x (rw opened at (rw (missing, read_closed) at e)))
  ]

  read-inside :
      (id offset len : ℕ) (m : VLogManager) (o : IsOpen m) (x : List ℕ)
      → (read can_map id offset len m).0 ≡ ok x
      → offset + len ≤ length (contents id m)
  unfolding read read_with
  read-inside id offset len m o x e =
      let here : (read_with can_map id offset len (some o.log) m).0 ≡ ok x =
        ap (λ a. (read_with can_map id offset len a m).0) (sym o.active) ∙ e in
      elim (Bool-cases (o.log.file_id == id)) [
        | inl this ↦
            subst (λ b. offset + len ≤ length b) (sym (contents_open id m o ∙ rw this refl))
              (read_log-inside offset len o.log x (rw this at here))
        | inr other ↦
            subst (λ b. offset + len ≤ length b) (sym (contents_open id m o ∙ rw other refl))
              (read_closed-inside id offset len m o x (rw other at here))
      ]

  -- What a pointer read before an Append it reads after it.
  pub read-append :
      (value : List ℕ) (m : VLogManager) (id offset len i at l : ℕ) (x : List ℕ)
      → IsOpen m
      → (append can_map value m).0 ≡ ok (id, offset, len)
      → ((n : ℕ) → length (contents n (append can_map value m).1) < 2 ^ 64)
      → (read can_map i at l m).0 ≡ ok x
      → (read can_map i at l (append can_map value m).1).0 ≡ ok x
  read-append value m id offset len i at l x o went small e =
      let (still, reads, numbered, inside, others) =
        append_pointer can_map can value m id offset len o went small in
      others i at l (read-inside i at l m o x e) ∙ e
