-- ===== src/Raft/StateStore/RoundTrip.antt =====
-- A state that was saved is loaded again.
use nexus_mq.Base.{
  ℕ, ◌≤◌, ◌<◌, ◌^◌, ◌≡◌, refl, sym, ap, ◌∙◌, ◌∷◌, ◌++◌, false, not, Option, none, some, Expected,
  ok, err, take, drop, length, ltb, ◌==◌, ==_self, arith,
}
use nexus_mq.Wire.Bytes.{Bytes, store_le, load_le, load_le-store_le}
use nexus_mq.Raft.Node.State.{RaftPersistentState}
use nexus_mq.Raft.StateStore.{
  Disk, IsFile, first_byte, vote_of, has_vote_byte, vote_or_zero, encode_state, encode_record,
  decode_record, load_read, load_sized, load, sync_written, save,
}

-- Is the vote in the range of an i32 that is not negative?
unfoldable pub IsVote : Option ℕ → Type 0
IsVote none = Unit
IsVote (some v) = v < 2 ^ 31

-- The term and the vote are in the ranges of their types.
pub record IsStorable (s : RaftPersistentState) : Type 0 where
  pub term_fits : s.current_term < 2 ^ 63
  pub vote_fits : IsVote s.voted_for

vote_back :
    (v : Option ℕ)
    → IsVote v
    → vote_of (not (has_vote_byte v == 0)) (load_le (store_le 4 (vote_or_zero v))) ≡ v
unfolding vote_of has_vote_byte vote_or_zero IsVote
vote_back none h = refl
vote_back (some v) h = ap some (load_le-store_le 4 v (omega arith))

sealed_parts :
    (c : ℕ) (p : Bytes)
    → (take 4 (store_le 4 c ++ p) ≡ store_le 4 c)
      × (drop 4 (store_le 4 c ++ p) ≡ p)
      × (drop 12 (store_le 4 c ++ p) ≡ drop 8 p)
      × (drop 13 (store_le 4 c ++ p) ≡ drop 9 p)
unfolding store_le
sealed_parts c p = (refl, refl, refl, refl)

state_parts :
    (t h v : ℕ)
    → let p = store_le 8 t ++ (h ∷ store_le 4 v) in
      (take 8 p ≡ store_le 8 t) × (first_byte (drop 8 p) ≡ h) × (take 4 (drop 9 p) ≡ store_le 4 v)
unfolding store_le first_byte
state_parts t h v = (refl, refl, refl)

module _ (D : Disk) where
  decode_record-sealed :
      (p : Bytes)
      → D.crc32c p < 2 ^ 32
      → decode_record D (store_le 4 (D.crc32c p) ++ p)
        ≡ ok (record {
          current_term = load_le (take 8 p);
          voted_for = vote_of (not (first_byte (drop 8 p) == 0)) (load_le (take 4 (drop 9 p)));
        })
  unfolding decode_record
  decode_record-sealed p h =
      let (front, rest, flag, vote) = sealed_parts (D.crc32c p) p in
      rw (front, rest, flag, vote, load_le-store_le 4 (D.crc32c p) h, ==_self (D.crc32c p)) refl

  decode_record-encode_record :
      (s : RaftPersistentState)
      → IsFile D
      → IsStorable s
      → decode_record D (encode_record D s) ≡ ok s
  unfolding encode_record encode_state
  decode_record-encode_record s file fits =
      let (term, flag, vote) =
        state_parts s.current_term (has_vote_byte s.voted_for) (vote_or_zero s.voted_for) in
      decode_record-sealed (encode_state s) (file.crc32c-lt (encode_state s))
      ∙ rw
          (
            term,
            flag,
            vote,
            load_le-store_le 8 s.current_term (omega (arith, fits.term_fits)),
            vote_back s.voted_for fits.vote_fits,
          )
          refl

  length-encode_record : (s : RaftPersistentState) → length (encode_record D s) ≡ 17
  unfolding encode_record encode_state store_le
  length-encode_record s = refl

  -- What is on the disk is the saved record.
  load_record :
      (s : RaftPersistentState) (d : D.State) (n : ℕ)
      → IsFile D
      → IsStorable s
      → D.size d ≡ ok n
      → 17 ≤ n
      → D.read_at 17 0 d ≡ ok (encode_record D s)
      → load D d ≡ ok s
  unfolding load load_sized load_read
  load_record s d n file fits size long bytes =
      let e : (n == 0) ≡ false = ground arith in
      let f : ltb n 17 ≡ false = ground arith in
      rw (size, e, f, bytes, length-encode_record s) (decode_record-encode_record s file fits)

  written_synced :
      (w : D.State × Expected (Unit {0})) (e : D.State)
      → sync_written D w ≡ (e, ok tt)
      → (d : D.State) × (w ≡ (d, ok tt)) × (D.sync d ≡ (e, ok tt))
  unfolding sync_written
  written_synced (d, ok u) e h = (d, refl, h)
  written_synced (d, err x) e h = absurd (ground (arith, ap (λ r. r.1) h))

  -- A term and a vote in the ranges of their types, saved without an error, are loaded again, on a
  -- file that keeps what was written and synced.
  pub load-save :
      (s : RaftPersistentState) (d e : D.State)
      → IsFile D
      → IsStorable s
      → save D s d ≡ (e, ok tt)
      → load D e ≡ ok s
  unfolding save
  load-save s d e file fits saved =
      let (w, written, synced) = written_synced (D.write_at (encode_record D s) 0 d) e saved in
      let (n, size, long) = file.written_size (encode_record D s) d w written in
      load_record s e n file fits (file.synced_size w e synced ∙ size)
        (omega (arith, long, length-encode_record s))
        (file.synced_read 17 w e synced
          ∙ ap (λ i. D.read_at i 0 w) (sym (length-encode_record s))
          ∙ file.written_read (encode_record D s) d w written)

  -- A term and a vote in the ranges of their types, saved without an error, are also loaded from what
  -- a crash leaves of the file.
  pub load_crashed-save :
      (s : RaftPersistentState) (d e u : D.State)
      → IsFile D
      → IsStorable s
      → save D s d ≡ (e, ok tt)
      → D.Crashes e u
      → load D u ≡ ok s
  unfolding save
  load_crashed-save s d e u file fits saved crash =
      let (w, written, synced) = written_synced (D.write_at (encode_record D s) 0 d) e saved in
      let (n, size, long) = file.written_size (encode_record D s) d w written in
      load_record s u n file fits (file.crashed_size w e u synced crash ∙ size)
        (omega (arith, long, length-encode_record s))
        (file.crashed_read 17 w e u synced crash
          ∙ ap (λ i. D.read_at i 0 w) (sym (length-encode_record s))
          ∙ file.written_read (encode_record D s) d w written)
