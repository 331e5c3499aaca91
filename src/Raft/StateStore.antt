-- ===== src/Raft/StateStore.antt =====
-- consensus/raft_state_store.cpp: the term and the vote of a node on disk, in one record of 17 bytes:
-- the checksum, the term, a byte that is 1 where there is a vote, the vote. Term and vote are numbers
-- below the half of their width, so that their sign bit is 0.
pub mod RoundTrip
use nexus_mq.Base.{
  ℕ, ◌≤◌, ◌<◌, ◌^◌, ◌≡◌, List, [], ◌∷◌, ◌++◌, Bool, not, Option, none, some, Expected, ok, err,
  ErrorCode, take, drop, length, ltb, ◌==◌, if◌then◌else◌,
}
use nexus_mq.Wire.Bytes.{Bytes, store_le, load_le}
use nexus_mq.Raft.Node.State.{RaftPersistentState}

-- An open file (io/file.hpp), and the checksum: common/crc32c.cpp leaves it to the processor where
-- it can.
pub record Disk : Type 1 where
  pub State : Type 0
  pub size : State → Expected ℕ
  -- `read_at count offset`: the bytes read, which may be fewer at the end of the file.
  pub read_at : ℕ → ℕ → State → Expected Bytes
  pub write_at : Bytes → ℕ → State → State × Expected (Unit {0})
  pub sync : State → State × Expected (Unit {0})
  -- `Crashes s t`: after a crash in `s`, the file may be found as `t`. What was written and not
  -- synced may be lost, in whole or in part.
  pub Crashes : State → State → Type 0
  pub crc32c : Bytes → ℕ

-- What a file that works does: bytes that were written at the start are read back, and the file is at
-- least as long; what was there when it was synced is there afterwards, also after a crash. A
-- checksum has 32 bits.
pub record IsFile (D : Disk) : Type 0 where
  pub written_read :
      (bytes : Bytes) (s t : D.State)
      → D.write_at bytes 0 s ≡ (t, ok tt)
      → D.read_at (length bytes) 0 t ≡ ok bytes
  pub written_size :
      (bytes : Bytes) (s t : D.State)
      → D.write_at bytes 0 s ≡ (t, ok tt)
      → (n : ℕ) × (D.size t ≡ ok n) × (length bytes ≤ n)
  pub synced_read :
      (count : ℕ) (s t : D.State)
      → D.sync s ≡ (t, ok tt)
      → D.read_at count 0 t ≡ D.read_at count 0 s
  pub synced_size : (s t : D.State) → D.sync s ≡ (t, ok tt) → D.size t ≡ D.size s
  pub crashed_read :
      (count : ℕ) (s t u : D.State)
      → D.sync s ≡ (t, ok tt)
      → D.Crashes t u
      → D.read_at count 0 u ≡ D.read_at count 0 s
  pub crashed_size : (s t u : D.State) → D.sync s ≡ (t, ok tt) → D.Crashes t u → D.size u ≡ D.size s
  pub crc32c-lt : (bytes : Bytes) → D.crc32c bytes < 2 ^ 32

abbrev pub record_size : ℕ
record_size = 17

-- The byte at the front; a record that was read has 17 bytes.
unfoldable pub first_byte : Bytes → ℕ
first_byte [] = 0
first_byte (b ∷ bs) = b

unfoldable pub vote_of : Bool → ℕ → Option ℕ
vote_of has_vote raw = if has_vote then some raw else none

unfoldable pub has_vote_byte : Option ℕ → ℕ
has_vote_byte none = 0
has_vote_byte (some v) = 1

unfoldable pub vote_or_zero : Option ℕ → ℕ
vote_or_zero none = 0
vote_or_zero (some v) = v

-- What the checksum covers.
unfoldable pub encode_state : RaftPersistentState → Bytes
encode_state s =
    store_le 8 s.current_term ++ (has_vote_byte s.voted_for ∷ store_le 4 (vote_or_zero s.voted_for))

module _ (D : Disk) where
  unfoldable pub encode_record : RaftPersistentState → Bytes
  unfolding encode_state
  encode_record s = store_le 4 (D.crc32c (encode_state s)) ++ encode_state s

  unfoldable pub decode_record : Bytes → Expected RaftPersistentState
  decode_record r =
      if not (load_le (take 4 r) == D.crc32c (drop 4 r))
      then err ErrorCode.corrupt
      else ok (record {
        current_term = load_le (take 8 (drop 4 r));
        voted_for = vote_of (not (first_byte (drop 12 r) == 0)) (load_le (take 4 (drop 13 r)));
      })

  unfoldable pub load_read : Expected Bytes → Expected RaftPersistentState
  load_read (err e) = err e
  load_read (ok r) = if ltb (length r) record_size then err ErrorCode.corrupt else decode_record r

  -- A file that was just created holds the initial state.
  unfoldable pub load_sized : D.State → Expected ℕ → Expected RaftPersistentState
  load_sized d (err e) = err e
  load_sized d (ok n) =
      if n == 0
      then ok (record { current_term = 0; voted_for = none })
      else if ltb n record_size
      then err ErrorCode.corrupt
      else load_read (D.read_at record_size 0 d)

  unfoldable pub load : D.State → Expected RaftPersistentState
  unfolding load_sized
  load d = load_sized d (D.size d)

  unfoldable pub sync_written : D.State × Expected (Unit {0}) → D.State × Expected (Unit {0})
  sync_written (d, err e) = (d, err e)
  sync_written (d, ok u) = D.sync d

  unfoldable pub save : RaftPersistentState → D.State → D.State × Expected (Unit {0})
  unfolding sync_written
  save s d = sync_written (D.write_at (encode_record s) 0 d)
