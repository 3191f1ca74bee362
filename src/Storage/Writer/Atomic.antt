-- ===== src/Storage/Writer/Atomic.antt =====
-- A registration's steps, one after the other, are `append`.
use metrics.Common.{
  ℕ, zero, suc, ◌/◌, ◌%◌, ◌≡◌, refl, ap, Bool, List, [], ◌∷◌, ltb, ◌==◌, get_elem?, set, Bool-cases,
  inl, inr, Option-cases, ◌∙◌, get_elem?-set_self, lt_of_get_elem?,
}
use metrics.Common.Panic.{Outcome, ok, ◌>>=◌, Outcome-cases}
use metrics.Storage.{chunk_size, MetaChunk, Storage, ItemPtr, publish, place, append}
use metrics.Storage.Writer.{
  Writer, idle, write_entry, release, is_new_chunk, grow, write_meta, release_chunk, finish,
  step_from, writer_step,
}

module _ {ℓ} {A : Type ℓ} where
  pub set-set : (xs : List A) (i : ℕ) (a b : A) → set (set xs i a) i b ≡ set xs i b
  set-set [] i a b = refl
  set-set (x ∷ xs) zero a b = refl
  set-set (x ∷ xs) (suc i) a b = ap (◌∷◌ x) (set-set xs i a b)

module _ {T : Type 0} where
  pub publish-write_entry :
      (offset : ℕ) (t : T) (c : MetaChunk T)
      → publish offset t c ≡ (write_entry offset t c >>= λ d. ok (release offset d))
  unfolding publish write_entry release
  publish-write_entry offset t c = elim (Bool-cases (ltb offset chunk_size)) [
    | inr out ↦ rw out
    | inl in_chunk ↦ elim (Bool-cases (c.published_len == offset)) [
      | inr other ↦ rw (in_chunk, other)
      | inl at_end ↦ elim (Option-cases (get_elem? c.entries offset)) [
        | inl beyond ↦ rw (in_chunk, at_end, beyond)
        | inr (e, found) ↦ rw (in_chunk, at_end, found)
      ]
    ]
  ]

module _ {S T : Type 0} where
  -- Behind `if is_new_chunk`, the steps are `place`.
  place-steps :
      (is_new : Bool) (meta : ItemPtr → T) (s : Storage S T)
      → (write_meta meta s >>= λ (w, t). release_chunk w >>= λ r. ok (finish is_new r))
        ≡ (place is_new meta s >>= λ (s', item). ok s')
  unfolding write_meta release_chunk finish place
  place-steps is_new meta s = elim (Option-cases (get_elem? s.slots (s.len / chunk_size))) [
    | inl beyond ↦ rw beyond
    | inr (b, boxed) ↦ elim (Option-cases (get_elem? s.meta_chunks (s.len / chunk_size))) [
      | inl beyond ↦ rw (boxed, beyond)
      | inr (c, found) ↦
          let offset = s.len % chunk_size in
          let chunk = s.len / chunk_size in
          let t = meta (record { region = s.region; chunk = chunk; offset = offset }) in
          let below = lt_of_get_elem? s.meta_chunks chunk found in
          elim (Outcome-cases (write_entry offset t c)) [
            | inl e ↦ rw (boxed, found, publish-write_entry offset t c, e)
            | inr (inl e) ↦ rw (boxed, found, publish-write_entry offset t c, e)
            | inr (inr (d, e)) ↦ rw (
              boxed,
              found,
              publish-write_entry offset t c,
              e,
              get_elem?-set_self s.meta_chunks chunk d below,
              set-set s.meta_chunks chunk d (release offset d),
            )
          ]
    ]
  ]

module _ {S T : Type 0} (default : S) where
  -- The four steps of an idle writer's registration
  unfoldable pub four_steps : (ItemPtr → T) → Writer S T → Outcome (Writer S T)
  four_steps meta w = do
    w1 ← writer_step default meta w
    w2 ← writer_step default meta w1
    w3 ← writer_step default meta w2
    writer_step default meta w3

  four :
      (meta : ItemPtr → T) (s : Storage S T) (items : List T)
      → (four_steps meta (record { storage = s; phase = idle; items = items }) >>= λ w.
          ok w.storage)
        ≡ (write_meta meta (grow default s) >>= λ (w, t).
            release_chunk w >>= λ r. ok (finish (is_new_chunk s) r))
  unfolding four_steps writer_step step_from
  four meta s items = elim (Outcome-cases (write_meta meta (grow default s))) [
    | inl e ↦ rw e
    | inr (inl e) ↦ rw e
    | inr (inr ((w, t), e)) ↦ elim (Outcome-cases (release_chunk w)) [
      | inl f ↦ rw (e, f)
      | inr (inl f) ↦ rw (e, f)
      | inr (inr (r, f)) ↦ rw (e, f)
    ]
  ]

  -- The four steps of a registration, with no visit between them, do to the storage what `append`
  -- does, and fail as it does.
  append-four_steps :
      (meta : ItemPtr → T) (s : Storage S T) (items : List T)
      → (four_steps meta (record { storage = s; phase = idle; items = items }) >>= λ w.
          ok w.storage)
        ≡ (append default meta s >>= λ (s', item). ok s')
  unfolding grow append
  append-four_steps meta s items =
      four meta s items ∙ place-steps (is_new_chunk s) meta (grow default s)
