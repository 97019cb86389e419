-- ===== src/Streams/Shards.antt =====
-- Every URL goes to one of the shards that there are.
use newser.Prelude.{
  ℕ, zero, suc, ◌<◌, ◌%◌, ◌+◌, ◌≡◌, refl, ◌∙◌, ap, String, Option, ◌-◌, arith, leb, Bool-cases, inl,
  inr,
}
use native.Mathlib.Nat.{mod-eq_of_lt}
use newser.Prelude.Int.{ℤ, pos, negsuc, pos_part, sub_ℕ}
use newser.Prelude.Show.{append, show_padded}
use newser.Store.{Reply, reply, fault}
use newser.Streams.{
  CrawlerTopology, new_crawler_topology, shard_index, rem, fold_back, shard_number, shard_stream,
  fingerprinted, canonicalised, Partition, Urls, partition_url,
}

-- A positive number of shards.
shard_count_pos : (n : ℤ) → 0 < (new_crawler_topology n).shard_count
unfolding new_crawler_topology
shard_count_pos n = ground arith

shard_index-lt :
    (parse_hex : String → Option ℕ) (c : CrawlerTopology) (f : String)
    → 0 < c.shard_count
    → shard_index parse_hex c f < c.shard_count
unfolding shard_index
shard_index-lt parse_hex c f h = grind arith

mod_small : (a d : ℕ) → a < d → a % d ≡ a
mod_small a d h = mod-eq_of_lt h

negative : (k : ℕ) → sub_ℕ 0 (suc k) ≡ negsuc k
negative k = ground arith

-- A negative remainder counts back from the number of shards.
fold_back-negsuc : (k d : ℕ) → k + 1 < d → fold_back (negsuc k) d ≡ pos (d - (k + 1))
unfolding fold_back rem
fold_back-negsuc k d h = ground (arith, mod_small (d - (k + 1)) d (omega arith))

fold_back-pos : (n d : ℕ) → fold_back (pos n) d ≡ pos n
unfolding fold_back
fold_back-pos n d = ground arith

folded : (m d : ℕ) → m < d → (j : ℕ) × (fold_back (sub_ℕ 0 m) d ≡ pos j) × (j < d)
folded zero d h = (0, fold_back-pos 0 d, omega arith)
folded (suc k) d h =
    (d - (k + 1), rw (negative k) (fold_back-negsuc k d (omega arith)), omega arith)

-- The number that ShardStream prints is that of a shard, also for an index that is out of range.
pub shard_number_range :
    (c : CrawlerTopology) (index : ℤ)
    → 1 < c.shard_count
    → (k : ℕ) × (shard_number c index ≡ pos k) × (k < c.shard_count)
unfolding shard_number rem
shard_number_range c (pos n) h =
    (n % c.shard_count, fold_back-pos (n % c.shard_count) c.shard_count, grind arith)
shard_number_range c (negsuc n) h = folded ((n + 1) % c.shard_count) c.shard_count (grind arith)

Bounded : CrawlerTopology → Partition → Type 0
Bounded c p = (p.shard < c.shard_count) × (p.stream ≡ append "crawl.shard." (show_padded p.shard))

shard_number_small :
    (c : CrawlerTopology) (k : ℕ) → k < c.shard_count → shard_number c (pos k) ≡ pos k
unfolding shard_number rem
shard_number_small c k h =
    fold_back-pos (k % c.shard_count) c.shard_count ∙ ap pos (mod_small k c.shard_count h)

shown_zero : (k : ℕ) → k ≡ 0 → "crawl.shard.00" ≡ append "crawl.shard." (show_padded k)
unfolding show_padded
shown_zero k h = rw h refl

shard_stream_small :
    (c : CrawlerTopology) (k : ℕ)
    → k < c.shard_count
    → shard_stream c (pos k) ≡ append "crawl.shard." (show_padded k)
unfolding shard_stream
shard_stream_small c k h = elim (Bool-cases (leb c.shard_count 1)) [
  | inl one ↦ rw one (shown_zero k (ground (arith, one)))
  | inr more ↦
      rw more
        (ap (λ i. append "crawl.shard." (show_padded (pos_part i))) (shard_number_small c k h))
]

fingerprinted-Bounded :
    {E : Type 0} (parse_hex : String → Option ℕ) (c : CrawlerTopology) (u : String)
    (got : Reply E String) (p : Partition)
    → 0 < c.shard_count
    → fingerprinted parse_hex c u got ≡ reply p
    → Bounded c p
unfolding fingerprinted Bounded
fingerprinted-Bounded parse_hex c u (fault e) p some_shard h = absurd (cc)
fingerprinted-Bounded parse_hex c u (reply f) p some_shard h =
    let small = shard_index-lt parse_hex c f some_shard in
    ground (arith, h, small, shard_stream_small c (shard_index parse_hex c f) small)

canonicalised-Bounded :
    {E : Type 0} (urls : Urls E) (parse_hex : String → Option ℕ) (c : CrawlerTopology)
    (got : Reply E String) (p : Partition)
    → 0 < c.shard_count
    → canonicalised urls parse_hex c got ≡ reply p
    → Bounded c p
unfolding canonicalised
canonicalised-Bounded urls parse_hex c (fault e) p some_shard h = absurd (cc)
canonicalised-Bounded urls parse_hex c (reply u) p some_shard h =
    fingerprinted-Bounded parse_hex c u (urls.url_fingerprint u) p some_shard h

-- For the topology that NewCrawlerTopology makes of any count, a URL that PartitionURL accepts gets
-- the number of a shard that there is, and the stream that carries this number with two digits or
-- more.
pub partition_url_bounds :
    {E : Type 0} (urls : Urls E) (parse_hex : String → Option ℕ) (n : ℤ) (url : String)
    (p : Partition)
    → partition_url urls parse_hex (new_crawler_topology n) url ≡ reply p
    → (p.shard < (new_crawler_topology n).shard_count)
      × (p.stream ≡ append "crawl.shard." (show_padded p.shard))
unfolding partition_url Bounded
partition_url_bounds urls parse_hex n url p h =
    canonicalised-Bounded urls parse_hex (new_crawler_topology n) (urls.canonical_url url) p
      (shard_count_pos n) h
