-- ===== src/Streams.antt =====
-- The messages and streams of internal/queue/streams: envelope.go and crawler.go.
pub mod Registry
pub mod Shards
pub mod Envelopes
use newser.Prelude.{
  ℕ, ◌+◌, ◌*◌, ◌%◌, ◌^◌, ◌-◌, ◌/◌, Bool, true, false, String, Option, none, some, List, [], ◌∷◌,
  ◌++◌, ltb, leb, if◌then◌else◌, is_empty, trim_space, byte_length, byte_prefix,
}
use newser.Prelude.Int.{ℤ, pos, negsuc, pos_part, sub_ℕ, ltb_ℤ, leb_ℤ, ◌+ℤ◌}
use newser.Prelude.Show.{append, show_padded}
use newser.Store.{Reply, reply, fault}
use Prim.Native.Char.{code}

abbrev pub stream_crawler_shard_prefix : String
stream_crawler_shard_prefix = "crawl.shard"

abbrev pub stream_crawler_dedup : String
stream_crawler_dedup = "crawl.dedup"

abbrev pub stream_crawler_refresh : String
stream_crawler_refresh = "crawl.refresh"

-- `CrawlerTopology`. The count is positive once it is made.
pub record CrawlerTopology : Type 0 where
  pub shard_count : ℕ

-- `NewCrawlerTopology`.
unfoldable pub new_crawler_topology : ℤ → CrawlerTopology
new_crawler_topology n = record { shard_count = if leb_ℤ n (pos 0) then 1 else pos_part n }

-- The bytes of a code point in UTF-8.
utf8_bytes : ℕ → List ℕ
utf8_bytes c =
    if ltb c 0x80
    then c ∷ []
    else if ltb c 0x800
    then (0xc0 + c / 64) ∷ (0x80 + c % 64) ∷ []
    else if ltb c 0x10000
    then (0xe0 + c / 4096) ∷ (0x80 + c / 64 % 64) ∷ (0x80 + c % 64) ∷ []
    else (0xf0 + c / 262144) ∷ (0x80 + c / 4096 % 64) ∷ (0x80 + c / 64 % 64) ∷ (0x80 + c % 64) ∷ []

unfoldable pub bytes_of : String → List ℕ
unfolding utf8_bytes
bytes_of String.[] = []
bytes_of (String.◌∷◌ c s) = utf8_bytes (code c) ++ bytes_of s

-- The hash of a malformed fingerprint, on uint64.
unfoldable pub hash_from : ℕ → List ℕ → ℕ
hash_from sum [] = sum
hash_from sum (b ∷ bs) = hash_from ((sum * 33 + b) % 2 ^ 64) bs

abbrev or_hash : String → Option ℕ → ℕ
or_hash fingerprint (some v) = v
or_hash fingerprint none = hash_from 0 (bytes_of fingerprint)

-- `ShardIndex`; `parse_hex` is `strconv.ParseUint` for base 16 and 64 bits.
unfoldable pub shard_index : (String → Option ℕ) → CrawlerTopology → String → ℕ
unfolding hash_from bytes_of
shard_index parse_hex c fingerprint =
    let trim = trim_space fingerprint in
    let head = if leb 16 (byte_length trim) then byte_prefix 16 trim else trim in
    if leb c.shard_count 1 then 0 else or_hash fingerprint (parse_hex head) % c.shard_count

-- Go's `%` on int, which has the sign of the dividend.
unfoldable pub rem : ℤ → ℕ → ℤ
rem (pos n) d = pos (n % d)
rem (negsuc n) d = sub_ℕ 0 ((n + 1) % d)

-- A negative remainder, counted from the other end.
unfoldable pub fold_back : ℤ → ℕ → ℤ
unfolding rem ◌+ℤ◌
fold_back r d = if ltb_ℤ r (pos 0) then rem (r +ℤ pos d) d else r

-- The index that ShardStream names.
unfoldable pub shard_number : CrawlerTopology → ℤ → ℤ
unfolding rem fold_back
shard_number c index = fold_back (rem index c.shard_count) c.shard_count

-- `ShardStream`.
unfoldable pub shard_stream : CrawlerTopology → ℤ → String
unfolding shard_number show_padded
shard_stream c index =
    if leb c.shard_count 1
    then append stream_crawler_shard_prefix ".00"
    else append stream_crawler_shard_prefix
        (append "." (show_padded (pos_part (shard_number c index))))

pub record Partition : Type 0 where
  pub canonical : String
  pub fingerprint : String
  pub shard : ℕ
  pub stream : String

-- The two functions of internal/helpers that PartitionURL calls.
pub record Urls (E : Type 0) : Type 0 where
  pub canonical_url : String → Reply E String
  pub url_fingerprint : String → Reply E String

fingerprinted :
    {E : Type 0}
    → (String → Option ℕ)
    → CrawlerTopology
    → String
    → Reply E String
    → Reply E Partition
fingerprinted parse_hex c canonical (fault e) = fault e
fingerprinted parse_hex c canonical (reply f) = reply record {
  canonical = canonical;
  fingerprint = f;
  shard = shard_index parse_hex c f;
  stream = shard_stream c (pos (shard_index parse_hex c f));
}

canonicalised :
    {E : Type 0}
    → Urls E
    → (String → Option ℕ)
    → CrawlerTopology
    → Reply E String
    → Reply E Partition
canonicalised urls parse_hex c (fault e) = fault e
canonicalised urls parse_hex c (reply u) = fingerprinted parse_hex c u (urls.url_fingerprint u)

-- `PartitionURL`.
unfoldable pub partition_url :
    {E : Type 0} → Urls E → (String → Option ℕ) → CrawlerTopology → String → Reply E Partition
unfolding canonicalised fingerprinted
partition_url urls parse_hex c raw = canonicalised urls parse_hex c (urls.canonical_url raw)

topic_stream : String → String → String
topic_stream base topic =
    let t = trim_space topic in if is_empty t then base else append base (append "." t)

-- `DedupStream`.
unfoldable pub dedup_stream : String → String
unfolding topic_stream
dedup_stream topic = topic_stream stream_crawler_dedup topic

-- `RefreshStream`.
unfoldable pub refresh_stream : String → String
unfolding topic_stream
refresh_stream topic = topic_stream stream_crawler_refresh topic

-- `Envelope`; the data are the bytes of a JSON text.
pub record Envelope (T : Type 0) : Type 0 where
  pub event_id : String
  pub event_type : String
  pub occurred_at : T
  pub trace_id : String
  pub attempt : ℤ
  pub payload_version : String
  pub content : String

pub data EnvelopeError : Type 0 where
  event_id_required event_type_required payload_version_required negative_attempt data_required :
      EnvelopeError
  unreadable unwritable : EnvelopeError

-- `ValidateBasic`, at the time `now`: the envelope as it is left, and the error.
unfoldable pub validate_basic :
    {T : Type 0} → (T → Bool) → T → Envelope T → Envelope T × Option EnvelopeError
validate_basic is_zero now e =
    let stamped = record e { occurred_at = if is_zero e.occurred_at then now else e.occurred_at } in
    if is_empty e.event_id
    then (e, some event_id_required)
    else if is_empty e.event_type
    then (e, some event_type_required)
    else if is_empty e.payload_version
    then (e, some payload_version_required)
    else if ltb_ℤ e.attempt (pos 0)
    then (e, some negative_attempt)
    else if is_empty e.content
    then (stamped, some data_required)
    else (stamped, none)

-- JSON of an envelope.
pub record Codec (T : Type 0) : Type 0 where
  pub encode : Envelope T → Option String
  pub decode : String → Option (Envelope T)

abbrev written_as : Option String → Reply EnvelopeError String
written_as none = fault unwritable
written_as (some s) = reply s

written : {T : Type 0} → Codec T → Envelope T × Option EnvelopeError → Reply EnvelopeError String
written codec (e, some x) = fault x
written codec (e, none) = written_as (codec.encode e)

-- `Marshal`.
unfoldable pub marshal :
    {T : Type 0} → Codec T → (T → Bool) → T → Envelope T → Reply EnvelopeError String
unfolding written
marshal codec is_zero now e = written codec (validate_basic is_zero now e)

abbrev checked : {T : Type 0} → Envelope T × Option EnvelopeError → Reply EnvelopeError (Envelope T)
checked (e, none) = reply e
checked (e, some x) = fault x

validated : {T : Type 0} → (T → Bool) → T → Option (Envelope T) → Reply EnvelopeError (Envelope T)
validated is_zero now none = fault unreadable
validated is_zero now (some e) = checked (validate_basic is_zero now e)

-- `UnmarshalEnvelope`.
unfoldable pub unmarshal_envelope :
    {T : Type 0} → Codec T → (T → Bool) → T → String → Reply EnvelopeError (Envelope T)
unfolding validated
unmarshal_envelope codec is_zero now s = validated is_zero now (codec.decode s)
