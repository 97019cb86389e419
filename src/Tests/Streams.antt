-- ===== src/Tests/Streams.antt =====
-- Shards, envelopes and schemas at concrete inputs. A schema is a text, which the documents equal to
-- it satisfy.
use newser.Prelude.{
  ℕ, ◌<◌, ◌≡◌, refl, Bool, false, not, ◌&&◌, String, Option, none, some, List, [], ◌∷◌, str_eq,
  is_empty, trim_space, ◌==◌, if◌then◌else◌, arith, eq_iff,
}
use newser.Prelude.Int.{pos, negsuc, eqb_ℤ}
use newser.Prelude.Show.{append, show_padded}
use newser.Store.{reply}
use newser.Streams.{
  new_crawler_topology, Urls, Partition, partition_url, shard_index, shard_stream, Envelope, Codec,
  marshal, unmarshal_envelope, validate_basic, shard_number,
}
use newser.Streams.Shards.{partition_url_bounds}
use newser.Streams.Registry.{
  SchemaTools, Call, validate, register_all, replay, accepts, is_none, validate-register_all,
}
use newser.Streams.Envelopes.{ReadsBack, unmarshal_envelope-marshal}

abbrev urls : Urls String
urls = record { canonical_url = λ u. reply u; url_fingerprint = λ u. reply "zz" }

abbrev parse_hex : String → Option ℕ
parse_hex s = none

abbrev partition : Partition
partition = record { canonical = "u"; fingerprint = "zz"; shard = 0; stream = "crawl.shard.00" }

-- 122 * 33 + 122 is 4 * 1037.
partitioned : partition_url urls parse_hex (new_crawler_topology (pos 4)) "u" ≡ reply partition
unfolding partition_url shard_index shard_stream new_crawler_topology shard_number
partitioned = refl

partition_url_bounds_example :
    (0 < (new_crawler_topology (pos 4)).shard_count)
    × ("crawl.shard.00" ≡ append "crawl.shard." (show_padded 0))
partition_url_bounds_example = partition_url_bounds urls parse_hex (pos 4) "u" partition partitioned

-- The remainder of a negative index counts back from the last shard.
negative_index : shard_stream (new_crawler_topology (pos 12)) (negsuc 1) ≡ "crawl.shard.10"
unfolding shard_stream new_crawler_topology shard_number
negative_index = refl

abbrev tools : SchemaTools String String
tools = record {
  compile = λ b. if str_eq b "bad" then none else some b;
  decode = λ p. some p;
  valid = λ s d. str_eq s d;
}

-- The last schema of a version counts, and one that does not compile changes nothing.
abbrev calls : List Call
calls =
    ("run.enqueued", "v1", "old")
    ∷ ("run.enqueued", "v1", "new")
    ∷ ("run.enqueued", "v1", "bad")
    ∷ ("", "v1", "x")
    ∷ []

validate-register_all_example :
    is_none (validate tools "run.enqueued" "v1" "new" (register_all tools calls [])) ≡ (
      not (is_empty "run.enqueued")
      && not (is_empty "v1")
      && accepts tools "new" (replay tools calls (λ e v. none) "run.enqueued" "v1"))
validate-register_all_example = validate-register_all tools calls "run.enqueued" "v1" "new"

abbrev event : ℕ → Envelope ℕ
event t = record {
  event_id = "e";
  event_type = "run.enqueued";
  occurred_at = t;
  trace_id = "";
  attempt = pos 0;
  payload_version = "v1";
  content = "new";
}

abbrev at_zero : ℕ → Bool
at_zero t = t == 0

abbrev is_event : Envelope ℕ → Bool
is_event e =
    str_eq e.event_id "e"
    && str_eq e.event_type "run.enqueued"
    && e.occurred_at == 5
    && str_eq e.trace_id ""
    && eqb_ℤ e.attempt (pos 0)
    && str_eq e.payload_version "v1"
    && not (is_empty (trim_space e.content))

-- A codec for the envelopes of one event, with any data that are not blank; the data stand in the
-- text as they are, and the spaces around them are not read.
abbrev codec : Codec ℕ
codec = record {
  encode = λ e. if is_event e then some e.content else none;
  decode = λ s. some (record (event 5) { content = trim_space s });
}

reads_back :
    (x : Envelope ℕ) (s : String)
    → codec.encode x ≡ some s
    → (codec.decode s ≡ some (record x { content = trim_space x.content }))
      × (is_empty (trim_space x.content) ≡ false)
reads_back x s h = ground (
  arith,
  eq_iff x.event_id "e",
  eq_iff x.event_type "run.enqueued",
  eq_iff x.trace_id "",
  eq_iff x.payload_version "v1",
)

codec-ReadsBack : ReadsBack codec at_zero trim_space (λ t. t)
codec-ReadsBack = record {
  reads = λ x s h. (reads_back x s h).0;
  some_content = λ x s h f. (reads_back x s h).1;
  some_time = λ t. refl;
}

marshalled : marshal codec at_zero 5 (record (event 0) { content = " {} " }) ≡ reply " {} "
unfolding marshal validate_basic
marshalled = refl

unmarshal_envelope-marshal_example :
    unmarshal_envelope codec at_zero 6 " {} " ≡ reply (record (event 5) { content = "{}" })
unmarshal_envelope-marshal_example =
    unmarshal_envelope-marshal codec at_zero trim_space (λ t. t) codec-ReadsBack 5 6
      (record (event 0) { content = " {} " }) " {} " refl marshalled
