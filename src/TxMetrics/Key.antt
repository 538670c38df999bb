-- ===== src/TxMetrics/Key.antt =====
-- The aggregation key of txmetrics/aggregator.go: which transactions are aggregated together.
use apm_server.Prelude.{
  ℕ, ◌+◌, ◌-◌, ◌*◌, ◌/◌, ◌%◌, ◌^◌, String, Option, none, some, Bool, true, false, ◌&&◌, List, [],
  ◌∷◌, Eq, ◌==◌, ==_iff, str_eq, string_eq, list_beq, list_beq_iff, ◌≡◌, refl, ◌↔◌, arith, ap,
}
use apm_server.Model.Event.{ApmEvent, Transaction, truncate}

-- The timestamp is that of an instant; all are in one location, which Go's `==` compares too.
pub record TransactionAggregationKey : Type 0 where
  pub timestamp : ℕ
  pub faas_coldstart : Option ℕ
  pub faas_id : String
  pub faas_name : String
  pub faas_version : String
  pub agent_name : String
  pub host_os_platform : String
  pub kubernetes_pod_name : String
  pub cloud_provider : String
  pub cloud_region : String
  pub cloud_availability_zone : String
  pub cloud_service_name : String
  pub cloud_account_id : String
  pub cloud_account_name : String
  pub cloud_machine_type : String
  pub cloud_project_id : String
  pub cloud_project_name : String
  pub service_environment : String
  pub service_name : String
  pub service_version : String
  pub service_node_name : String
  pub service_runtime_name : String
  pub service_runtime_version : String
  pub service_language_name : String
  pub service_language_version : String
  pub transaction_name : String
  pub transaction_result : String
  pub transaction_type : String
  pub event_outcome : String
  pub faas_trigger_type : String
  pub hostname : String
  pub container_id : String
  pub trace_root : Bool

-- `makeTransactionAggregationKey`, on the event and its transaction.
unfoldable pub make_transaction_aggregation_key :
    {F : Type 0} → ApmEvent F → Transaction F → ℕ → TransactionAggregationKey
unfolding truncate
make_transaction_aggregation_key event transaction interval = record {
  timestamp = truncate event.timestamp interval;
  faas_coldstart = event.faas.coldstart;
  faas_id = event.faas.id;
  faas_name = event.faas.name;
  faas_version = event.faas.version;
  agent_name = event.agent_name;
  host_os_platform = event.host.os_platform;
  kubernetes_pod_name = event.kubernetes_pod_name;
  cloud_provider = event.cloud.provider;
  cloud_region = event.cloud.region;
  cloud_availability_zone = event.cloud.availability_zone;
  cloud_service_name = event.cloud.service_name;
  cloud_account_id = event.cloud.account_id;
  cloud_account_name = event.cloud.account_name;
  cloud_machine_type = event.cloud.machine_type;
  cloud_project_id = event.cloud.project_id;
  cloud_project_name = event.cloud.project_name;
  service_environment = event.service.environment;
  service_name = event.service.name;
  service_version = event.service.version;
  service_node_name = event.service.node_name;
  service_runtime_name = event.service.runtime.name;
  service_runtime_version = event.service.runtime.version;
  service_language_name = event.service.language.name;
  service_language_version = event.service.language.version;
  transaction_name = transaction.name;
  transaction_result = transaction.result;
  transaction_type = transaction.type;
  event_outcome = event.outcome;
  faas_trigger_type = event.faas.trigger_type;
  hostname = event.host.hostname;
  container_id = event.container_id;
  trace_root = str_eq event.parent_id "";
}

-- The texts of a key, in the order of its fields.
unfoldable pub texts : TransactionAggregationKey → List String
texts k =
    k.faas_id ∷ k.faas_name ∷ k.faas_version ∷ k.agent_name ∷ k.host_os_platform
    ∷ k.kubernetes_pod_name ∷ k.cloud_provider ∷ k.cloud_region ∷ k.cloud_availability_zone
    ∷ k.cloud_service_name ∷ k.cloud_account_id ∷ k.cloud_account_name ∷ k.cloud_machine_type
    ∷ k.cloud_project_id ∷ k.cloud_project_name ∷ k.service_environment ∷ k.service_name
    ∷ k.service_version ∷ k.service_node_name ∷ k.service_runtime_name ∷ k.service_runtime_version
    ∷ k.service_language_name ∷ k.service_language_version ∷ k.transaction_name
    ∷ k.transaction_result ∷ k.transaction_type ∷ k.event_outcome ∷ k.faas_trigger_type ∷ k.hostname
    ∷ k.container_id ∷ []

unfoldable pub pointer_eq : Option ℕ → Option ℕ → Bool
pointer_eq none none = true
pointer_eq (some p) (some q) = p == q
pointer_eq _ _ = false

unfoldable pub bool_eq : Bool → Bool → Bool
bool_eq true b = b
bool_eq false true = false
bool_eq false false = true

-- Go's `==` on two keys: field by field, the cold start by its address.
unfoldable pub key_eq : TransactionAggregationKey → TransactionAggregationKey → Bool
key_eq k j =
    k.timestamp == j.timestamp
    && pointer_eq k.faas_coldstart j.faas_coldstart
    && bool_eq k.trace_root j.trace_root
    && list_beq str_eq (texts k) (texts j)

pointer_eq_iff : (p q : Option ℕ) → (pointer_eq p q ≡ true) ↔ (p ≡ q)
unfolding pointer_eq
pointer_eq_iff none none = (λ h. refl, λ h. refl)
pointer_eq_iff none (some q) = (λ h. cc, λ h. cc)
pointer_eq_iff (some p) none = (λ h. cc, λ h. cc)
pointer_eq_iff (some p) (some q) =
    (λ h. ground (arith, ==_iff p q), λ h. ground (arith, ==_iff p q))

bool_eq_iff : (p q : Bool) → (bool_eq p q ≡ true) ↔ (p ≡ q)
unfolding bool_eq
bool_eq_iff p q = (λ h. ground arith, λ h. ground arith)

texts-injective :
    (k j : TransactionAggregationKey)
    → k.timestamp ≡ j.timestamp
    → k.faas_coldstart ≡ j.faas_coldstart
    → k.trace_root ≡ j.trace_root
    → texts k ≡ texts j
    → k ≡ j
unfolding texts
texts-injective k j t f r h = cc

-- Go's `==` on keys decides equality, two cold starts being equal if they have one address.
pub key_eq_iff : (k j : TransactionAggregationKey) → (key_eq k j ≡ true) ↔ (k ≡ j)
unfolding key_eq
key_eq_iff k j = (
  λ h.
      texts-injective k j (ground (arith, ==_iff k.timestamp j.timestamp))
        ((pointer_eq_iff k.faas_coldstart j.faas_coldstart).0 (ground arith))
        ((bool_eq_iff k.trace_root j.trace_root).0 (ground arith))
        ((list_beq_iff string_eq (texts k) (texts j)).0 (ground arith)),
  λ h. ground (
    arith,
    ==_iff k.timestamp j.timestamp,
    (pointer_eq_iff k.faas_coldstart j.faas_coldstart).1 (ap (λ x. x.faas_coldstart) h),
    (bool_eq_iff k.trace_root j.trace_root).1 (ap (λ x. x.trace_root) h),
    (list_beq_iff string_eq (texts k) (texts j)).1 (ap texts h),
  ),
)

instance abbrev pub transaction_key_eq : Eq TransactionAggregationKey
transaction_key_eq = record { beq = key_eq; beq_iff = key_eq_iff }

-- What the code uses of github.com/cespare/xxhash.
pub record Hasher : Type 1 where
  pub Digest : Type 0
  pub new : Digest
  pub write : Digest → List ℕ → Digest
  pub write_string : Digest → String → Digest
  pub sum64 : Digest → ℕ

-- `binary.LittleEndian.PutUint64`
unfoldable pub put_uint64 : ℕ → List ℕ
put_uint64 x =
    x % 256
    ∷ x / 0x100 % 256
    ∷ x / 0x1_0000 % 256
    ∷ x / 0x100_0000 % 256
    ∷ x / 0x1_0000_0000 % 256
    ∷ x / 0x100_0000_0000 % 256
    ∷ x / 0x1_0000_0000_0000 % 256
    ∷ x / 0x100_0000_0000_0000 % 256
    ∷ []

-- `uint64(t.UnixNano())`, for times from the zero time on: 1970 is 62135596800 seconds after it.
unfoldable pub unix_nano : ℕ → ℕ
unix_nano t = (t + 4 * 2 ^ 64 - 62_135_596_800_000_000_000) % 2 ^ 64

-- The texts that are hashed, in their order.
unfoldable pub hashed_texts : TransactionAggregationKey → List String
hashed_texts k =
    k.agent_name ∷ k.container_id ∷ k.hostname ∷ k.host_os_platform ∷ k.kubernetes_pod_name
    ∷ k.cloud_provider ∷ k.cloud_region ∷ k.cloud_availability_zone ∷ k.cloud_service_name
    ∷ k.cloud_account_id ∷ k.cloud_account_name ∷ k.cloud_machine_type ∷ k.cloud_project_id
    ∷ k.cloud_project_name ∷ k.service_environment ∷ k.service_name ∷ k.service_version
    ∷ k.service_node_name ∷ k.service_runtime_name ∷ k.service_runtime_version
    ∷ k.service_language_name ∷ k.service_language_version ∷ k.transaction_name
    ∷ k.transaction_result ∷ k.transaction_type ∷ k.event_outcome ∷ k.faas_id ∷ k.faas_trigger_type
    ∷ k.faas_name ∷ k.faas_version ∷ []

module _ (hasher : Hasher) (deref : ℕ → Bool) where
  open hasher use {Digest, new, write, write_string, sum64}

  unfoldable pub write_strings : Digest → List String → Digest
  write_strings d [] = d
  write_strings d (s ∷ ss) = write_strings (write_string d s) ss

  is_cold_start : Option ℕ → Bool
  is_cold_start none = false
  is_cold_start (some p) = deref p

  write_flag : Digest → Bool → Digest
  write_flag d true = write_string d "1"
  write_flag d false = d

  -- `hash`; `deref` reads the memory that a cold start points to.
  unfoldable pub hash : TransactionAggregationKey → ℕ
  unfolding write_strings put_uint64 unix_nano hashed_texts is_cold_start write_flag
  hash k =
      let d = write new (put_uint64 (unix_nano k.timestamp)) in
      let d' = write_flag d k.trace_root in
      let d'' = write_flag d' (is_cold_start k.faas_coldstart) in
      sum64 (write_strings d'' (hashed_texts k))

  -- Keys that differ only in the addresses of their cold starts have the same hash if the values
  -- stored there are the same.
  pub hash_cold_start :
      (k : TransactionAggregationKey) (p q : ℕ)
      → deref p ≡ deref q
      → hash (record k { faas_coldstart = some p }) ≡ hash (record k { faas_coldstart = some q })
  unfolding hash
  hash_cold_start k p q h = rw (h, hash)
