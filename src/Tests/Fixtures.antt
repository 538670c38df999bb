-- ===== src/Tests/Fixtures.antt =====
-- Concrete arithmetic, histograms, hashing and caching, and a few events.
use apm_server.Prelude.{
  ℕ, ◌+◌, ◌-◌, ◌*◌, ◌/◌, ◌^◌, ◌≤◌, ◌==◌, ltb, leb, String, str_eq, Bool, true, List, [], ◌∷◌, none,
  some, pos, negsuc, Bytes, bytes_eq_instance, length, if◌then◌else◌, arith, Option-cases, inl, inr,
}
use apm_server.Prelude.Maps.{
  lookup, insert, lookup-insert_self, length-insert_new, length-insert_old,
}
use apm_server.Model.Float64.{Float64}
use apm_server.Model.Event.{
  ApmEvent, Transaction, zero_event, zero_service, transaction_processor, span_processor,
}
use apm_server.Auth.ApiKey.{Cache, CacheLaws}
use apm_server.TxMetrics.Metrics.{Histograms, Bracket}
use apm_server.TxMetrics.Key.{Hasher}

-- Arithmetic on whole numbers.
abbrev pub whole : Float64
whole = record {
  F = ℕ;
  of_int = λ n. elim n [ pos k ↦ k | negsuc k ↦ 0 ];
  add = λ a b. a + b;
  sub = λ a b. a - b;
  mul = λ a b. a * b;
  div = λ a b. a / b;
  pow = λ a b. a ^ b;
  eqb = ◌==◌;
  ltb = ltb;
  leb = leb;
  round = λ a. a;
  round_int = pos;
  to_int = pos;
}

-- A histogram that lists what was recorded.
abbrev pub listed : Histograms
listed = record {
  Histogram = List Bracket;
  new = λ low high figures. [];
  reset = λ h. [];
  record_values = λ h value count. record { to = value; count = count } ∷ h;
  distribution = λ h. h;
}

-- A digest that counts one text.
abbrev pub counting : Hasher
counting = record {
  Digest = ℕ;
  new = 0;
  write = λ d bytes. d;
  write_string = λ d text. if str_eq text "b" then d + 1 else d;
  sum64 = λ d. d;
}

-- Two addresses, 1 and 2, at which the cold start is true.
abbrev pub memory : ℕ → Bool
memory p = true

-- A cache whose entries do not expire.
abbrev pub map_cache : {V : Type 0} → Cache V
map_cache {V} = record {
  State = List (Bytes × V);
  get = λ s k. lookup k s;
  set_default = λ s k v. insert k v s;
  item_count = length;
}

count_le_map :
    {V : Type 0} (s : List (Bytes × V)) (k : Bytes) (v : V) → length (insert k v s) ≤ length s + 1
count_le_map s k v = elim (Option-cases (lookup k s)) [
  | inl new ↦ omega (arith, length-insert_new k v s new)
  | inr (old, known) ↦ omega (arith, length-insert_old k v old s known)
]

pub map_cache_laws : {V : Type 0} → CacheLaws (map_cache {V = V})
map_cache_laws = record { get_self = λ s k v. lookup-insert_self k v s; count_le = count_le_map }

abbrev pub transaction_named : String → Transaction ℕ
transaction_named name = record {
  id = "1";
  name = name;
  type = "request";
  result = "HTTP 2xx";
  sampled = true;
  duration_histogram = record { values = []; counts = [] };
  dropped_spans_stats = [];
  representative_count = 1;
  root = true;
}

abbrev pub transaction_event : String → ApmEvent ℕ
transaction_event name = record (zero_event ℕ) {
  processor = transaction_processor;
  service = record zero_service { name = "shop" };
  duration = pos 2_000_000;
  transaction = some (transaction_named name);
}

abbrev pub span_event : String → ApmEvent ℕ
span_event resource = record (zero_event ℕ) {
  processor = span_processor;
  service = record zero_service { name = "shop" };
  duration = pos 5;
  span = some (record {
    id = "2";
    destination_service =
        some
          (record { resource = resource; response_time = record { count = pos 0; sum = pos 0 } });
    composite = none;
    representative_count = 2;
  });
}
