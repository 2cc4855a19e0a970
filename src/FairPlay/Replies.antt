-- ===== src/FairPlay/Replies.antt =====
-- Which requests `fp_setup` answers, and with what.
use openairplay.Prelude.{
  ℕ, ◌-◌, ◌≡◌, ◌≤◌, ◌<◌, refl, sym, subst, inl, inr, ◌⊎◌, Bool-cases, true, false, ◌==◌, some, ◌++◌,
  length, take, drop, length-drop, Bytes, same_bytes, same_bytes_iff, ==_iff, arith,
}
use openairplay.FairPlay.{
  magic, version_pos, type_pos, seq_pos, mode_pos, setup_type, setup1_seq, setup2_seq,
  setup2_suffix_len, reply0, reply1, reply2, reply3, reply_header, byte_at, table, is_malformed,
  phase_two, fp_setup,
}

-- A request that is not malformed: the signature, the version, the type, and a mode byte.
pub record IsRequest (request : Bytes) : Type 0 where
  pub long : mode_pos < length request
  pub signed : take 4 request ≡ magic
  pub version : byte_at version_pos request ≡ 3
  pub typed : byte_at type_pos request ≡ setup_type

-- The answer to the first phase: a table of 142 bytes that begins as a request does, with the
-- sequence number 2, and names the mode that it is for.
pub record IsTable (mode : ℕ) (reply : Bytes) : Type 0 where
  pub mode_in : mode ≤ 3
  pub size : length reply ≡ 142
  pub signed : take 4 reply ≡ magic
  pub second : byte_at seq_pos reply ≡ 2
  pub for_mode : byte_at 13 reply ≡ mode

-- The answer to the second phase: a header of twelve bytes with the sequence number 4, and the
-- last twenty bytes of the request.
pub record IsEcho (request reply : Bytes) : Type 0 where
  pub enough : setup2_suffix_len ≤ length request
  pub size : length reply ≡ 32
  pub signed : take 4 reply ≡ magic
  pub fourth : byte_at seq_pos reply ≡ 4
  pub echoed : drop 12 reply ≡ drop (length request - setup2_suffix_len) request

reply0-IsTable : IsTable 0 reply0
unfolding reply0
reply0-IsTable = record {
  mode_in = omega arith;
  size = refl;
  signed = refl;
  second = refl;
  for_mode = refl;
}

reply1-IsTable : IsTable 1 reply1
unfolding reply1
reply1-IsTable = record {
  mode_in = omega arith;
  size = refl;
  signed = refl;
  second = refl;
  for_mode = refl;
}

reply2-IsTable : IsTable 2 reply2
unfolding reply2
reply2-IsTable = record {
  mode_in = omega arith;
  size = refl;
  signed = refl;
  second = refl;
  for_mode = refl;
}

reply3-IsTable : IsTable 3 reply3
unfolding reply3
reply3-IsTable = record {
  mode_in = omega arith;
  size = refl;
  signed = refl;
  second = refl;
  for_mode = refl;
}

chosen :
    (mode n : ℕ) (r reply : Bytes)
    → mode ≡ n
    → IsTable n r
    → some r ≡ some reply
    → IsTable mode reply
chosen mode n r reply m t e =
    subst (λ (k : ℕ). IsTable k reply) (sym m) (subst (λ (x : Bytes). IsTable n x) (cc) t)

table-IsTable : (mode : ℕ) (reply : Bytes) → table mode ≡ some reply → IsTable mode reply
unfolding table
table-IsTable mode reply e = elim (Bool-cases (mode == 0)) [
  | inl m ↦ chosen mode 0 reply0 reply ((==_iff mode 0).0 m) reply0-IsTable (ground arith)
  | inr n0 ↦ elim (Bool-cases (mode == 1)) [
    | inl m ↦ chosen mode 1 reply1 reply ((==_iff mode 1).0 m) reply1-IsTable (ground arith)
    | inr n1 ↦ elim (Bool-cases (mode == 2)) [
      | inl m ↦ chosen mode 2 reply2 reply ((==_iff mode 2).0 m) reply2-IsTable (ground arith)
      | inr n2 ↦ elim (Bool-cases (mode == 3)) [
        | inl m ↦ chosen mode 3 reply3 reply ((==_iff mode 3).0 m) reply3-IsTable (ground arith)
        | inr n3 ↦ absurd (ground arith)
      ]
    ]
  ]
]

phase_two-IsEcho : (request reply : Bytes) → phase_two request ≡ some reply → IsEcho request reply
phase_two-IsEcho request reply e =
    let suffix = drop (length request - setup2_suffix_len) request in
    let enough : setup2_suffix_len ≤ length request = ground arith in
    let made : reply_header ++ suffix ≡ reply = ground arith in
    subst (λ (r : Bytes). IsEcho request r) made
      (record {
        enough = enough;
        size = omega (arith, length-drop (length request - setup2_suffix_len) request);
        signed = refl;
        fourth = refl;
        echoed = refl;
      })

byte_is : (request : Bytes) (i n : ℕ) → (byte_at i request == n) ≡ true → byte_at i request ≡ n
byte_is request i n e = (==_iff (byte_at i request) n).0 e

well_formed : (request : Bytes) → is_malformed request ≡ false → IsRequest request
well_formed request e = elim (Bool-cases (same_bytes (take 4 request) magic)) [
  | inl same ↦ record {
    long = ground arith;
    signed = (same_bytes_iff (take 4 request) magic).0 same;
    version = ground arith;
    typed = ground arith;
  }
  | inr differ ↦ absurd (ground arith)
]

-- What `fp_setup` answers is one of two: the table of the mode that a well-formed request of the
-- first phase names, or the echo of a well-formed request of the second phase.
pub fp_setup-IsTable :
    (request reply : Bytes)
    → fp_setup request ≡ some reply
    → IsRequest request
      × (((byte_at seq_pos request ≡ setup1_seq) × IsTable (byte_at mode_pos request) reply)
          ⊎ ((byte_at seq_pos request ≡ setup2_seq) × IsEcho request reply))
unfolding fp_setup
fp_setup-IsTable request reply e = elim (Bool-cases (is_malformed request)) [
  | inl bad ↦ absurd (ground arith)
  | inr good ↦ (
    well_formed request good,
    elim (Bool-cases (byte_at seq_pos request == setup1_seq)) [
      | inl one ↦ inl (
        byte_is request seq_pos setup1_seq one,
        table-IsTable (byte_at mode_pos request) reply (ground arith),
      )
      | inr more ↦ elim (Bool-cases (byte_at seq_pos request == setup2_seq)) [
        | inl two ↦
            inr (
              byte_is request seq_pos setup2_seq two,
              phase_two-IsEcho request reply (ground arith),
            )
        | inr other ↦ absurd (ground arith)
      ]
    ],
  )
]
