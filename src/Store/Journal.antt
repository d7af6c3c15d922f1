-- ===== src/Store/Journal.antt =====
-- internal/store/journal.go: the append-only file of records, its writer and its replay.
-- The file is the list of its bytes. JSON and the CRC are the parameter `Codec`; what the operating
-- system does with a write is the argument `Disk`.
pub mod Frames
pub mod Scans
pub mod Recovery
pub mod Appends
pub mod ShortWrites
pub mod Tests
use dev_ops_pipeline_orchest.Prelude.{
  List, Option, [], drop, if◌then◌else◌, length, ltb, none, not, some, suc, take, zero, ℕ, ◌%◌,
  ◌&&◌, ◌*◌, ◌++◌, ◌+◌, ◌/◌, ◌<◌, ◌==◌, ◌∷◌, ◌≡◌, nat_eq,
}
use dev_ops_pipeline_orchest.Store.Rows.{
  Payload, Record, Result, commit, corrupt, deployment, err, io, ok,
}

abbrev pub Bytes : Type 0
Bytes = List ℕ

-- encoding/json on a `record`, and hash/crc32 on its payload.
pub record Codec : Type 0 where
  pub marshal : Record → Option Bytes
  pub unmarshal : Bytes → Option Record
  pub crc32 : Bytes → ℕ

-- What is documented of them: a record that could be encoded is decoded to itself, and lengths and
-- checksums fit the header's four bytes.
pub record IsCodec (c : Codec) : Type 0 where
  pub round_trip : (r : Record) (b : Bytes) → c.marshal r ≡ some b → c.unmarshal b ≡ some r
  pub short : (r : Record) (b : Bytes) → c.marshal r ≡ some b → length b < 4294967296
  pub crc_bound : (b : Bytes) → c.crc32 b < 4294967296

-- `journal`: the file, and the counters that the process keeps.
pub record Journal : Type 0 where
  pub file : Bytes
  pub seq : ℕ
  pub syncs : ℕ
  pub written : ℕ

-- What happens to one group: it lands and is synced; only its first bytes land and the write fails;
-- or it lands and the sync fails.
pub data Disk : Type 0 where
  durable : Disk
  short_write : ℕ → Disk
  sync_failed : Disk

abbrev pub header_size : ℕ
header_size = 12

abbrev pub magic : Bytes
magic = b'O' ∷ b'R' ∷ b'J' ∷ b'1' ∷ []

-- binary.BigEndian.PutUint32(uint32(n))
abbrev pub be32 : ℕ → Bytes
be32 n = n / 16777216 % 256 ∷ n / 65536 % 256 ∷ n / 256 % 256 ∷ n % 256 ∷ []

-- binary.BigEndian.Uint32
abbrev pub of_be32 : ℕ → ℕ → ℕ → ℕ → ℕ
of_be32 a b c d = a * 16777216 + b * 65536 + c * 256 + d

unfoldable pub encode_record : Codec → Record → Option Bytes
encode_record c r = elim (c.marshal r) [
  | none ↦ none
  | some payload ↦ some (magic ++ (be32 (length payload) ++ (be32 (c.crc32 payload) ++ payload)))
]

-- the loop of `appendGroup` and the commit marker behind it
unfoldable pub encode_group : Codec → ℕ → List Payload → Option Bytes
encode_group c seq [] = encode_record c (record { payload = commit; seq = seq })
encode_group c seq (p ∷ ps) =
    let rest = encode_group c seq ps in
    elim (encode_record c (record { payload = p; seq = seq })) [
      | none ↦ none
      | some b ↦ elim rest [ none ↦ none | some bs ↦ some (b ++ bs) ]
    ]

-- what one write of `buf` leaves behind
unfoldable pub land : Disk → Bytes → Journal → Result (Unit {0}) × Journal
land durable buf j = (
  ok tt,
  record j { file = j.file ++ buf; syncs = j.syncs + 1; written = j.written + length buf },
)
land (short_write n) buf j = (err io, record j { file = j.file ++ take n buf })
land sync_failed buf j = (err io, record j { file = j.file ++ buf })

-- journal.appendGroup: the sequence number is given back if encoding fails, and kept if writing does
unfoldable pub append_group : Codec → Disk → List Payload → Journal → Result (Unit {0}) × Journal
unfolding land
append_group c disk ps j = elim (encode_group c (j.seq + 1) ps) [
  | none ↦ (err io, j)
  | some buf ↦ land disk buf (record j { seq = j.seq + 1 })
]

-- One round of the loop of `replay`: a torn end, a record that is damaged, or a record, with its
-- size in the file and the bytes behind it.
pub data Frame : Type 0 where
  torn damaged : Frame
  frame : Record → ℕ → Bytes → Frame

read_payload : Codec → ℕ → ℕ → Bytes → Frame
read_payload c n want body =
    let payload = take n body in
    if ltb (length payload) n
    then torn
    else if not (c.crc32 payload == want)
    then damaged
    else elim (c.unmarshal payload) [
      | none ↦ damaged
      | some r ↦ frame r (header_size + n) (drop n body)
    ]

-- io.ReadFull of the header needs twelve bytes
pub read_frame : Codec → Bytes → Frame
read_frame c (m0 ∷ m1 ∷ m2 ∷ m3 ∷ l0 ∷ l1 ∷ l2 ∷ l3 ∷ k0 ∷ k1 ∷ k2 ∷ k3 ∷ body) =
    if m0 == b'O' && (m1 == b'R' && (m2 == b'J' && m3 == b'1'))
    then read_payload c (of_be32 l0 l1 l2 l3) (of_be32 k0 k1 k2 k3) body
    else damaged
read_frame c _ = torn

-- The variables of the loop: the open group, the offsets, the journal's sequence number, and what
-- `apply` has built.
pub record Scan (S : Type 0) : Type 0 where
  pub group_seq : ℕ
  pub group_recs : List Payload
  pub last_good : ℕ
  pub offset : ℕ
  pub top_seq : ℕ
  pub built : S

module _ {S : Type 0} (c : Codec) (apply : Payload → S → Result S) where
  -- `for _, r := range group.recs`
  unfoldable pub apply_all : List Payload → S → Result S
  apply_all [] s = ok s
  apply_all (p ∷ ps) s = elim (apply p s) [ err e ↦ err e | ok s' ↦ apply_all ps s' ]

  pub close_group : ℕ → ℕ → Scan S → Result (Scan S)
  close_group seq size st =
      if seq == st.group_seq
      then elim (apply_all st.group_recs st.built) [
        | err e ↦ err e
        | ok s ↦ ok (record {
          group_seq = 0;
          group_recs = [];
          last_good = st.offset + size;
          offset = st.offset + size;
          top_seq = if ltb st.top_seq seq then seq else st.top_seq;
          built = s;
        })
      ]
      else err corrupt

  pub add_to_group : Payload → ℕ → ℕ → Scan S → Result (Scan S)
  add_to_group p seq size st = ok (record st {
    group_seq = if st.group_seq == 0 then seq else st.group_seq;
    group_recs = st.group_recs ++ p ∷ [];
    offset = st.offset + size;
  })

  pub accept : Payload → ℕ → ℕ → Scan S → Result (Scan S)
  unfolding close_group add_to_group
  accept commit seq size st = close_group seq size st
  accept (deployment d) seq size st = add_to_group (deployment d) seq size st
  accept p seq size st = add_to_group p seq size st

  -- The loop on fuel; `none` means that the fuel ran out.
  pub replay_loop : ℕ → Bytes → Scan S → Option (Result (Scan S))
  replay_loop zero bs st = none
  replay_loop (suc fuel) bs st = elim (read_frame c bs) [
    | torn ↦ some (ok st)
    | damaged ↦ some (err corrupt)
    | frame r size rest ↦ elim (accept r.payload r.seq size st) [
      | err e ↦ some (err e)
      | ok st' ↦ replay_loop fuel rest st'
    ]
  ]

  abbrev pub start : Journal → S → Scan S
  start j s = record {
    group_seq = 0;
    group_recs = [];
    last_good = 0;
    offset = 0;
    top_seq = j.seq;
    built = s;
  }

  -- journal.replay: the file is cut behind the last committed group. One round of the loop takes at
  -- least a header, so the file's length is fuel enough.
  unfoldable pub replay : Journal → S → Option (Result (S × Journal))
  replay j s = elim (replay_loop (suc (length j.file)) j.file (start j s)) [
    | none ↦ none
    | some (err e) ↦ some (err e)
    | some (ok st) ↦
        some (ok (st.built, record j { file = take st.last_good j.file; seq = st.top_seq }))
  ]
