-- ===== src/Sampling/Storage.antt =====
-- x-pack/apm-server/sampling/eventstorage/storage.go: sampling decisions and trace events under
-- string keys. Badger and the codec are parameters.
pub mod Decisions
pub mod JsonCodec
pub mod Events
pub mod Sharded
use apm_server.Prelude.{
  ℕ, suc, ◌+◌, String, concat, Option, none, some, Bool, true, false, List, [], ◌∷◌, ◌++◌, ◌==◌,
  ltb, if◌then◌else◌, ℤ, Bytes, ◌⊎◌, inl, inr,
}
use apm_server.Model.Event.{ApmEvent}

-- `badger.Entry`, with the duration after which it expires.
pub record Entry : Type 0 where
  pub key : String
  pub value : Bytes
  pub user_meta : ℕ
  pub ttl : ℤ

pub data BadgerError : Type 0 where
  key_not_found txn_too_big : BadgerError
  other_error : String → BadgerError

-- `badger.Item`
pub record Item : Type 0 where
  pub user_meta : ℕ
  pub is_deleted_or_expired : Bool
  pub value : Bytes ⊎ BadgerError

-- What the code uses of github.com/dgraph-io/badger: read-write transactions on a database.
pub record Badger : Type 1 where
  pub Db : Type 0
  pub Txn : Type 0
  pub new_transaction : Db → Txn
  pub get : Txn → String → Item ⊎ BadgerError
  pub set_entry : Txn → Entry → Txn ⊎ BadgerError
  pub delete : Txn → String → Txn ⊎ BadgerError
  pub commit : Db → Txn → Db × Option BadgerError
  pub iterate : Txn → String → List Item

-- `Codec`
pub record Codec (F : Type 0) : Type 0 where
  pub encode_event : ApmEvent F → Bytes ⊎ String
  pub decode_event : Bytes → ApmEvent F ⊎ String

pub data StorageError : Type 0 where
  not_found : StorageError
  badger_error : BadgerError → StorageError
  codec_error : String → StorageError

abbrev pub entry_meta_trace_sampled : ℕ
entry_meta_trace_sampled = 115

abbrev pub entry_meta_trace_unsampled : ℕ
entry_meta_trace_unsampled = 117

abbrev pub entry_meta_trace_event : ℕ
entry_meta_trace_event = 101

-- The key of an event of a trace, and the prefix of all of them.
abbrev pub trace_prefix : String → String
trace_prefix trace_id = concat trace_id ":"

abbrev pub event_key : String → String → String
event_key trace_id id = concat (trace_prefix trace_id) id

abbrev failure : Option BadgerError → Option StorageError
failure none = none
failure (some e) = some (badger_error e)

-- The items of which the loop decodes the value.
unfoldable pub is_event : Item → Bool
is_event item =
    if item.is_deleted_or_expired then false else item.user_meta == entry_meta_trace_event

module _ (badger : Badger) where
  open badger use {Db, Txn, new_transaction, get, set_entry, commit}

  -- A `ReadWriter`, with the database of its storage.
  pub record ReadWriter : Type 0 where
    pub db : Db
    pub txn : Txn
    pub pending_writes : ℕ

  -- `NewReadWriter`
  unfoldable pub new_read_writer : Db → ReadWriter
  new_read_writer db = record { db = db; txn = new_transaction db; pending_writes = 0 }

  -- `Flush`: a new transaction is begun whether or not the old one is committed.
  unfoldable pub flush : ReadWriter → ReadWriter × Option StorageError
  flush w =
      let (db, err) = commit w.db w.txn in
      (record { db = db; txn = new_transaction db; pending_writes = 0 }, failure err)

  -- The last statement of `writeEntry`.
  unfoldable pub set_after_flush :
      ReadWriter × Option StorageError → Entry → ReadWriter × Option StorageError
  set_after_flush (w, some err) entry = (w, some err)
  set_after_flush (w, none) entry = elim (set_entry w.txn entry) [
    | inl txn ↦ (record w { txn = txn }, none)
    | inr err ↦ (w, some (badger_error err))
  ]

  -- `writeEntry`
  unfoldable pub write_entry : ReadWriter → Entry → ReadWriter × Option StorageError
  unfolding flush set_after_flush
  write_entry w entry =
      let counted = record w { pending_writes = w.pending_writes + 1 } in
      elim (set_entry w.txn entry) [
        | inl txn ↦ (record counted { txn = txn }, none)
        | inr txn_too_big ↦ set_after_flush (flush counted) entry
        | inr key_not_found ↦ (counted, some (badger_error key_not_found))
        | inr (other_error text) ↦ (counted, some (badger_error (other_error text)))
      ]

  -- `WriteTraceSampled`
  unfoldable pub write_trace_sampled :
      ℤ → ReadWriter → String → Bool → ReadWriter × Option StorageError
  unfolding write_entry
  write_trace_sampled ttl w trace_id sampled = write_entry w (record {
    key = trace_id;
    value = [];
    user_meta = if sampled then entry_meta_trace_sampled else entry_meta_trace_unsampled;
    ttl = ttl;
  })

  -- `IsTraceSampled`
  unfoldable pub is_trace_sampled : ReadWriter → String → Bool ⊎ StorageError
  is_trace_sampled w trace_id = elim (get w.txn trace_id) [
    | inl item ↦ inl (item.user_meta == entry_meta_trace_sampled)
    | inr key_not_found ↦ inr not_found
    | inr txn_too_big ↦ inr (badger_error txn_too_big)
    | inr (other_error text) ↦ inr (badger_error (other_error text))
  ]

  -- `DeleteTraceEvent`
  unfoldable pub delete_trace_event :
      ReadWriter → String → String → ReadWriter × Option StorageError
  delete_trace_event w trace_id id = elim (badger.delete w.txn (event_key trace_id id)) [
    | inl txn ↦ (record w { txn = txn }, none)
    | inr err ↦ (w, some (badger_error err))
  ]

module _ {F : Type 0} (badger : Badger) (codec : Codec F) (ttl : ℤ) where
  -- `WriteTraceEvent`
  unfoldable pub write_trace_event :
      ReadWriter badger → String → String → ApmEvent F → ReadWriter badger × Option StorageError
  unfolding write_entry
  write_trace_event w trace_id id event = elim (codec.encode_event event) [
    | inr err ↦ (w, some (codec_error err))
    | inl value ↦ write_entry badger w (record {
      key = event_key trace_id id;
      value = value;
      user_meta = entry_meta_trace_event;
      ttl = ttl;
    })
  ]

  -- `DecodeEvent` on the value of an item.
  unfoldable pub decode_item : Item → ApmEvent F ⊎ StorageError
  decode_item item = elim item.value [
    | inr err ↦ inr (badger_error err)
    | inl value ↦ elim (codec.decode_event value) [
      | inr err ↦ inr (codec_error err)
      | inl event ↦ inl event
    ]
  ]

  -- The loop of `ReadTraceEvents`: the batch, and the error that ended the loop.
  unfoldable pub read_items :
      List Item → List (ApmEvent F) → List (ApmEvent F) × Option StorageError
  unfolding decode_item is_event
  read_items [] out = (out, none)
  read_items (item ∷ items) out = elim (is_event item) [
    | false ↦ read_items items out
    | true ↦ elim (decode_item item) [
      | inr err ↦ (out, some err)
      | inl event ↦ read_items items (out ++ (event ∷ []))
    ]
  ]

  unfoldable pub read_after_flush :
      ReadWriter badger × Option StorageError
      → String
      → List (ApmEvent F)
      → ReadWriter badger × List (ApmEvent F) × Option StorageError
  unfolding read_items
  read_after_flush (w, some err) trace_id out = (w, out, some err)
  read_after_flush (w, none) trace_id out =
      let (events, err) = read_items (badger.iterate w.txn (trace_prefix trace_id)) out in
      (w, events, err)

  -- `ReadTraceEvents`
  unfoldable pub read_trace_events :
      ReadWriter badger
      → String
      → List (ApmEvent F)
      → ReadWriter badger × List (ApmEvent F) × Option StorageError
  unfolding flush read_after_flush
  read_trace_events w trace_id out =
      read_after_flush (if ltb 100 w.pending_writes then flush badger w else (w, none)) trace_id out
