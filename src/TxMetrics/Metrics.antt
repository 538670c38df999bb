-- ===== src/TxMetrics/Metrics.antt =====
-- x-pack/apm-server/aggregation/txmetrics/aggregator.go: the groups of one aggregation period, and
-- their update under the locks. Keys, their hash and the histograms of
-- github.com/elastic/go-hdrhistogram are parameters here.
pub mod Groups
pub mod Recording
pub mod Allocation
pub mod Updates
pub mod Interleaving
use apm_server.Prelude.{
  ℕ, zero, suc, ◌+◌, ◌-◌, Bool, true, false, List, [], ◌∷◌, ◌++◌, Option, none, some, Eq, leb, ltb,
  if◌then◌else◌, length, get_elem?, set, take, drop, nat_eq, ◌>>=◌,
}
use apm_server.Prelude.Maps.{lookup, insert}

-- What the code uses of a histogram: creation, `Reset`, `RecordValuesAtomic` and `Distribution`,
-- whose brackets have an upper end and a count.
pub record Bracket : Type 0 where
  pub to : ℕ
  pub count : ℕ

pub record Histograms : Type 1 where
  pub Histogram : Type 0
  pub new : ℕ → ℕ → ℕ → Histogram
  pub reset : Histogram → Histogram
  pub record_values : Histogram → ℕ → ℕ → Histogram
  pub distribution : Histogram → List Bracket

module _ {K : Type 0} ⦃e : Eq K⦄ (hash : K → ℕ) (histograms : Histograms) where
  open histograms use {Histogram, new, reset, record_values}

  -- `metricsMapEntry`; the key is `none` until the slot is first used.
  pub record Entry : Type 0 where
    pub key : Option K
    pub histogram : Option Histogram

  -- `metrics`: the map holds pointers into `space`, which are indices here.
  pub record Metrics : Type 0 where
    pub entries : ℕ
    pub m : List (ℕ × List ℕ)
    pub space : List Entry

  unfoldable pub blank : ℕ → List Entry
  blank zero = []
  blank (suc n) = record { key = none; histogram = none } ∷ blank n

  unfoldable pub new_metrics : ℕ → Metrics
  unfolding blank
  new_metrics max_groups = record { entries = 0; m = []; space = blank max_groups }

  -- What an update does: it changes the metrics, finds no room, or panics.
  pub data Update : Type 0 where
    updated : Metrics → Update
    refused panicked : Update

  key_is : Option K → K → Bool
  key_is none k = false
  key_is (some j) k = e.beq j k

  unfoldable pub has_key : Option Entry → K → Bool
  unfolding key_is
  has_key none k = false
  has_key (some entry) k = key_is entry.key k

  -- The loops over a bucket: the pointer at which they stop.
  unfoldable pub find : List Entry → K → List ℕ → Option ℕ
  find space k [] = none
  find space k (i ∷ is) = if has_key (get_elem? space i) k then some i else find space k is

  -- `recordDuration` through a pointer.
  unfoldable pub record_entry : Entry → ℕ → ℕ → Entry
  record_entry entry value count = record entry {
    histogram = (do h ← entry.histogram; some (record_values h value count));
  }

  unfoldable pub record_at : Metrics → ℕ → ℕ → ℕ → Metrics
  record_at m i value count = elim (get_elem? m.space i) [
    | none ↦ m
    | some entry ↦ record m { space = set m.space i (record_entry entry value count) }
  ]

  unfoldable pub fresh : ℕ → Option Histogram → Histogram
  fresh figures none = new 0 3_600_000_000 figures
  fresh figures (some h) = reset h

  -- The end of the update: the next slot of `space` becomes a group.
  unfoldable pub allocate : ℕ → Metrics → List ℕ → K → ℕ → ℕ → Update
  unfolding fresh
  allocate figures m bucket k value count = elim (get_elem? m.space m.entries) [
    | none ↦ panicked
    | some entry ↦ updated (record m {
      entries = m.entries + 1;
      m = insert (hash k) (bucket ++ m.entries ∷ []) m.m;
      space = set m.space m.entries (record {
        key = some k;
        histogram = some (record_values (fresh figures entry.histogram) value count);
      });
    })
  ]

  -- Under the read lock: the entry, or where to start searching with the write lock.
  pub data Search : Type 0 where
    hit : ℕ → Search
    miss : ℕ → Search

  unfoldable pub read_phase : Metrics → K → Search
  read_phase m k = elim (lookup (hash k) m.m) [
    | none ↦ miss 0
    | some bucket ↦ elim (find m.space k bucket) [
      | some i ↦ hit i
      | none ↦ miss (length bucket - 1 + 1)
    ]
  ]

  -- Under the write lock, the search starting at `offset`.
  unfoldable pub write_phase : ℕ → Metrics → ℕ → K → ℕ → ℕ → Update
  write_phase figures m offset k value count = elim (lookup (hash k) m.m) [
    | some bucket ↦
        if ltb (length bucket) offset
        then panicked
        else (elim (find m.space k (drop offset bucket)) [
          | some i ↦ updated (record_at m i value count)
          | none ↦ allocate figures m bucket k value count
        ])
    | none ↦ if leb (length m.space) m.entries then refused else allocate figures m [] k value count
  ]

  -- `updateTransactionMetrics` with no other update between its two phases.
  unfoldable pub update : ℕ → Metrics → K → ℕ → ℕ → Update
  update figures m k value count = elim (read_phase m k) [
    | hit i ↦ updated (record_at m i value count)
    | miss offset ↦ write_phase figures m offset k value count
  ]
