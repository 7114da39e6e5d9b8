-- ===== src/MarketData/Ingest/Outcomes.antt =====
-- `ingest`: when it is undefined, and what each of its outcomes counts.
use options_engine.Prelude.{
  ℕ, ◌+◌, ◌^◌, ◌≤◌, ◌<◌, ◌≡◌, refl, ap, sym, ◌∙◌, ◌≢◌, ◌⊎◌, ◌↔◌, inl, inr, true, false, List, ◌++◌,
  Option, none, some, arith, ltb, ◌==◌, Bool-cases, length, take, drop, length-take, length-drop,
}
use options_engine.Prelude.Words.{add64}
use options_engine.Types.{MarketDataMsg}
use options_engine.Spsc.{try_push}
use options_engine.MarketData.Wire.{WireHeader, header_size, magic_word, read_header, WireNewOrder}
use options_engine.MarketData.Wire.RoundTrip.{
  header_bytes, new_order_bytes, NewOrderFits, read_header-header_bytes, new_order_msg,
  decode_new_order-bytes,
}
use options_engine.MarketData.Ingest.Decoding.{Decodes, decode-Decodes}
use options_engine.MarketData.Ingest.{
  queue_depth, Ingestion, Ingested, returned, fault, parse_error, note_sequence, decode, deliver,
  subspan, ingest,
}

-- A datagram whose header is accepted but announces more payload than there is.
abbrev pub Overstated : List ℕ → Type 0
Overstated bytes =
    (header_size ≤ length bytes)
    × ((read_header bytes).magic ≡ magic_word)
    × (length bytes < header_size + (read_header bytes).payload_len)

-- The way through `ingest`, by its tests.
data Way (s : Ingestion) (bytes : List ℕ) (r : Ingested) : Type 0 where
  short : length bytes < header_size → r ≡ parse_error s → Way s bytes r
  alien : (read_header bytes).magic ≢ magic_word → r ≡ parse_error s → Way s bytes r
  overstated : Overstated bytes → r ≡ fault → Way s bytes r
  whole :
      header_size + (read_header bytes).payload_len ≤ length bytes
      → (read_header bytes).magic ≡ magic_word
      → r
        ≡ deliver (note_sequence s (read_header bytes).seq_num) (
            decode
              (read_header bytes)
              (take (read_header bytes).payload_len (drop header_size bytes)))
      → Way s bytes r

subspan-none : (bytes : List ℕ) (i n : ℕ) → length bytes < i + n → subspan bytes i n ≡ none
unfolding subspan
subspan-none bytes i n h = let t : ltb (length bytes) (i + n) ≡ true = ground arith in rw t

subspan-some :
    (bytes : List ℕ) (i n : ℕ)
    → i + n ≤ length bytes
    → subspan bytes i n ≡ some (take n (drop i bytes))
unfolding subspan
subspan-some bytes i n h = let t : ltb (length bytes) (i + n) ≡ false = ground arith in rw t

payload-whole :
    (bytes : List ℕ) (i n : ℕ)
    → i + n ≤ length bytes
    → ltb (length (take n (drop i bytes))) n ≡ false
payload-whole bytes i n h =
    let e : length (take n (drop i bytes)) ≡ n =
      omega (arith, length-take n (drop i bytes), length-drop i bytes) in
    rw e (ground arith)

ltb-cases : (a b : ℕ) → ((a < b) × (ltb a b ≡ true)) ⊎ ((b ≤ a) × (ltb a b ≡ false))
ltb-cases a b = ground arith

test-cases : (a b : ℕ) → ((a ≡ b) × ((a == b) ≡ true)) ⊎ ((a ≢ b) × ((a == b) ≡ false))
test-cases a b = ground arith

ingest-Way : (s : Ingestion) (bytes : List ℕ) → Way s bytes (ingest s bytes)
unfolding ingest
ingest-Way s bytes = elim (ltb-cases (length bytes) header_size) [
  | inl (h, t) ↦ short h (rw (t, ingest))
  | inr (h, t) ↦ elim (test-cases (read_header bytes).magic magic_word) [
    | inr (ne, u) ↦ alien ne (rw (t, u, ingest))
    | inl (e, u) ↦ elim (ltb-cases (length bytes) (header_size + (read_header bytes).payload_len)) [
      | inl (k, w) ↦
          overstated (h, e, k)
            (rw (t, u, subspan-none bytes header_size (read_header bytes).payload_len k, ingest))
      | inr (k, w) ↦ whole k e (
          rw (
            t,
            u,
            subspan-some bytes header_size (read_header bytes).payload_len k,
            payload-whole bytes header_size (read_header bytes).payload_len k,
            ingest,
          ))
    ]
  ]
]

deliver-ne-fault : (s : Ingestion) (o : Option MarketDataMsg) → deliver s o ≢ fault
unfolding deliver
deliver-ne-fault s none e = cc
deliver-ne-fault s (some msg) e = elim (Bool-cases (try_push queue_depth s.outbound msg).1) [
  | inl t ↦ returned-ne (rw (t, deliver) at e)
  | inr t ↦ returned-ne (rw (t, deliver) at e)
]
  where
    returned-ne : {q : Ingestion} {n : ℕ} → returned q n ≡ fault → ⊥
    returned-ne p = cc

error-ne-fault : (s : Ingestion) → parse_error s ≢ fault
error-ne-fault s e = cc

-- `ingest` runs into the undefined `subspan` call exactly on a datagram with a good header that announces
-- more payload than follows it: the check behind that call comes too late to help.
pub ingest-fault_iff :
    (s : Ingestion) (bytes : List ℕ) → (ingest s bytes ≡ fault) ↔ Overstated bytes
ingest-fault_iff s bytes = (to, from)
  where
    to : ingest s bytes ≡ fault → Overstated bytes
    to e = elim (ingest-Way s bytes) [
      | short h p ↦ absurd (error-ne-fault s (sym p ∙ e))
      | alien h p ↦ absurd (error-ne-fault s (sym p ∙ e))
      | overstated h p ↦ h
      | whole h m p ↦ absurd (deliver-ne-fault _ _ (sym p ∙ e))
    ]

    from : Overstated bytes → ingest s bytes ≡ fault
    from (h, m, k) = elim (ingest-Way s bytes) [
      | short g p ↦ absurd (omega arith)
      | alien g p ↦ absurd (g m)
      | overstated g p ↦ p
      | whole g _ p ↦ absurd (omega arith)
    ]

abbrev payload_of : List ℕ → List ℕ
payload_of bytes = take (read_header bytes).payload_len (drop header_size bytes)

-- A datagram with a good header and its whole payload, which decodes to `o`.
abbrev pub Carries : List ℕ → Option MarketDataMsg → Type 0
Carries bytes o =
    ((read_header bytes).magic ≡ magic_word)
    × (header_size + (read_header bytes).payload_len ≤ length bytes)
    × Decodes (read_header bytes) (payload_of bytes) o

-- Too short for a header, without the magic word, or with a payload that does not decode.
abbrev pub Malformed : List ℕ → Type 0
Malformed bytes =
    (length bytes < header_size) ⊎ (((read_header bytes).magic ≢ magic_word) ⊎ Carries bytes none)

-- What a call that returns has counted, and for what datagram.
pub data Tally (s s' : Ingestion) (bytes : List ℕ) : ℕ → Type 0 where
  ingested :
      (msg : MarketDataMsg)
      → Carries bytes (some msg)
      → try_push queue_depth s.outbound msg ≡ (s'.outbound, true)
      → s'.stat_ingested ≡ add64 s.stat_ingested 1
      → s'.stat_errors ≡ s.stat_errors
      → Tally s s' bytes 1
  erroneous :
      Malformed bytes
      → s'.stat_ingested ≡ s.stat_ingested
      → s'.stat_errors ≡ add64 s.stat_errors 1
      → s'.outbound ≡ s.outbound
      → Tally s s' bytes 0
  dropped :
      (msg : MarketDataMsg)
      → Carries bytes (some msg)
      → (try_push queue_depth s.outbound msg).1 ≡ false
      → s'.stat_ingested ≡ s.stat_ingested
      → s'.stat_errors ≡ s.stat_errors
      → s'.outbound ≡ s.outbound
      → Tally s s' bytes 0

-- `r` is undefined for an overstated payload, or has counted what it did.
pub data Counted (s : Ingestion) (bytes : List ℕ) : Ingested → Type 0 where
  undefined : Overstated bytes → Counted s bytes fault
  returns : {s' : Ingestion} {n : ℕ} → Tally s s' bytes n → Counted s bytes (returned s' n)

pair-eq {ℓ κ} : {A : Type ℓ} {B : Type κ} (p : A × B) {b : B} → p.1 ≡ b → p ≡ (p.0, b)
pair-eq p e = λ i. (p.0, e i)

deliver-Counted :
    (s : Ingestion) (bytes : List ℕ) (seq : ℕ) (o : Option MarketDataMsg)
    → Carries bytes o
    → Counted s bytes (deliver (note_sequence s seq) o)
unfolding deliver note_sequence
deliver-Counted s bytes seq none c = returns (erroneous (inr (inr c)) refl refl refl)
deliver-Counted s bytes seq (some msg) c =
    elim (Bool-cases (try_push queue_depth s.outbound msg).1) [
      | inl t ↦
          rw t
            (returns (ingested msg c (pair-eq (try_push queue_depth s.outbound msg) t) refl refl))
      | inr t ↦ rw t (returns (dropped msg c t refl refl refl))
    ]

-- Every datagram ends in one of four ways. An announced payload that is not there is the undefined call. A
-- datagram too short for a header, without the magic word, of an unknown type or with too short a payload
-- is counted as an error, with 0 returned and the queue untouched. Any other is decoded, each field read
-- off its bytes by its type: the message is pushed and counted, with 1 returned; or, if the queue is full,
-- it is dropped, which no counter shows, and 0 is returned although it was decoded.
pub ingest-Counted : (s : Ingestion) (bytes : List ℕ) → Counted s bytes (ingest s bytes)
ingest-Counted s bytes = elim (ingest-Way s bytes) [
  | short h p ↦ rw p (returns (erroneous (inl h) refl refl refl))
  | alien h p ↦ rw p (returns (erroneous (inr (inl h)) refl refl refl))
  | overstated h p ↦ rw p (undefined h)
  | whole h m p ↦ rw p (
      deliver-Counted s bytes (read_header bytes).seq_num _
        (m, h, decode-Decodes (read_header bytes) (payload_of bytes)))
]

-- The datagram of a new order, as the feed lays it out.
abbrev pub new_order_header : ℕ → WireHeader
new_order_header seq = record {
  magic = magic_word;
  version = 1;
  msg_type = 1;
  seq_num = seq;
  payload_len = 24;
}

abbrev pub new_order_datagram : ℕ → WireNewOrder → List ℕ
new_order_datagram seq w = header_bytes (new_order_header seq) ++ new_order_bytes w

-- The datagram of a new order whose fields fit their widths is delivered as the message of its own
-- fields, after gap detection on its sequence number.
pub ingest-new_order_datagram :
    (s : Ingestion) (seq : ℕ) (w : WireNewOrder)
    → seq < 2 ^ 64
    → NewOrderFits w
    → ingest s (new_order_datagram seq w)
      ≡ deliver (note_sequence s seq) (some (new_order_msg seq w))
ingest-new_order_datagram s seq w lt fits = elim (ingest-Way s bytes) [
  | short h p ↦ absurd (omega arith)
  | alien ne p ↦ absurd (ne (ap (λ h. h.magic) hdr))
  | overstated h p ↦ absurd (omega (arith, h.2, ap (λ h. h.payload_len) hdr))
  | whole h m p ↦ p ∙ ap after hdr ∙ ap (deliver (note_sequence s seq)) decoded
]
  where
    bytes : List ℕ
    bytes = new_order_datagram seq w

    hdr : read_header bytes ≡ new_order_header seq
    hdr = read_header-header_bytes (new_order_header seq) (new_order_bytes w) (record {
      magic = omega arith;
      version = omega arith;
      msg_type = omega arith;
      seq_num = lt;
      payload_len = omega arith;
    })

    after : WireHeader → Ingested
    after h =
        deliver (note_sequence s h.seq_num) (decode h (take h.payload_len (drop header_size bytes)))

    decoded : decode (new_order_header seq) (new_order_bytes w) ≡ some (new_order_msg seq w)
    decoded = unfold decode in decode_new_order-bytes seq w fits
