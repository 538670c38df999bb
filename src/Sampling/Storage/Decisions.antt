-- ===== src/Sampling/Storage/Decisions.antt =====
-- What is written through a `ReadWriter` is what it reads, also when the write has had to commit the
-- transaction and begin another.
use apm_server.Prelude.{
  ℕ, ◌+◌, ◌≡◌, ◌≢◌, refl, ap, subst, ◌∙◌, String, concat, Option, none, some, Bool, true, false, [],
  ◌==◌, if◌then◌else◌, ℤ, inl, inr, Member, arith, Option-cases, Sum-cases,
}
use apm_server.Sampling.Storage.{
  Entry, Item, key_not_found, txn_too_big, other_error, Badger, StorageError, ReadWriter, flush,
  set_after_flush, write_entry, write_trace_sampled, is_trace_sampled, entry_meta_trace_sampled,
  entry_meta_trace_unsampled,
}

-- What a read gives of an entry that has not expired.
abbrev pub item_of : Entry → Item
item_of entry = record {
  user_meta = entry.user_meta;
  is_deleted_or_expired = false;
  value = inl entry.value;
}

-- The last write of a transaction under the key of an entry is the entry.
pub data Wrote (badger : Badger) (entry : Entry) : badger.Txn → Type 0 where
  wrote_now : (t t' : badger.Txn) → badger.set_entry t entry ≡ inl t' → Wrote badger entry t'
  wrote_before :
      (t t' : badger.Txn) (other : Entry)
      → Wrote badger entry t
      → other.key ≢ entry.key
      → badger.set_entry t other ≡ inl t'
      → Wrote badger entry t'

-- What the storage relies on, as long as no entry expires: a transaction reads its own writes, and no
-- write changes another key; what it commits is visible to the next one; and the iteration over a
-- prefix passes the keys that begin with it.
pub record BadgerLaws (badger : Badger) : Type 0 where
  pub get_wrote :
      (t : badger.Txn) (entry : Entry)
      → Wrote badger entry t
      → badger.get t entry.key ≡ inl (item_of entry)
  pub get_other :
      (t t' : badger.Txn) (entry : Entry) (key : String)
      → badger.set_entry t entry ≡ inl t'
      → entry.key ≢ key
      → badger.get t' key ≡ badger.get t key
  pub get_commit :
      (d d' : badger.Db) (t : badger.Txn) (entry : Entry)
      → Wrote badger entry t
      → badger.commit d t ≡ (d', none)
      → badger.get (badger.new_transaction d') entry.key ≡ inl (item_of entry)
  pub iterate_get :
      (t : badger.Txn) (prefix rest : String) (item : Item)
      → badger.get t (concat prefix rest) ≡ inl item
      → Member item (badger.iterate t prefix)

module _ (badger : Badger) where
  open badger use {Db, Txn, new_transaction, get, set_entry, commit, iterate}

  set_after_flush-Wrote :
      (r : ReadWriter badger × Option StorageError) (entry : Entry) (w' : ReadWriter badger)
      → set_after_flush badger r entry ≡ (w', none)
      → Wrote badger entry w'.txn
  unfolding set_after_flush
  set_after_flush-Wrote (w, some err) entry w' h = cc
  set_after_flush-Wrote (w, none) entry w' h = elim (Sum-cases (set_entry w.txn entry)) [
    | inl (t, e) ↦ let same : t ≡ w'.txn = ground arith in wrote_now w.txn w'.txn (e ∙ ap inl same)
    | inr (err, e) ↦ cc
  ]

  pub write_entry-Wrote :
      (w w' : ReadWriter badger) (entry : Entry)
      → write_entry badger w entry ≡ (w', none)
      → Wrote badger entry w'.txn
  unfolding write_entry
  write_entry-Wrote w w' entry h = elim (Sum-cases (set_entry w.txn entry)) [
    | inl (t, e) ↦ let same : t ≡ w'.txn = ground arith in wrote_now w.txn w'.txn (e ∙ ap inl same)
    | inr (txn_too_big, e) ↦
        let counted = record w { pending_writes = w.pending_writes + 1 } in
        set_after_flush-Wrote (flush badger counted) entry w' (rw (e, write_entry) at h)
    | inr (key_not_found, e) ↦ absurd (ground arith)
    | inr (other_error text, e) ↦ absurd (ground arith)
  ]

module _ (badger : Badger) (laws : BadgerLaws badger) where
  open badger use {Db, Txn, new_transaction, get, set_entry, commit, iterate}

  -- The entry of a write is read back after a flush that succeeds.
  pub flush-get :
      (entry : Entry) (w w' : ReadWriter badger)
      → Wrote badger entry w.txn
      → flush badger w ≡ (w', none)
      → get w'.txn entry.key ≡ inl (item_of entry)
  unfolding flush
  flush-get entry w w' x h =
      let (d', err) = commit w.db w.txn in
      elim (Option-cases err) [
        | inr (e, f) ↦ absurd (ground arith)
        | inl f ↦
            let same : new_transaction d' ≡ w'.txn = ground arith in
            subst (λ t. get t entry.key ≡ inl (item_of entry)) same
              (laws.get_commit w.db d' w.txn entry x (ap (λ o. (d', o)) f))
      ]

  -- An entry that the next reads find, also if one of them flushes first.
  pub data Kept (entry : Entry) (w : ReadWriter badger) : Type 0 where
    unflushed : Wrote badger entry w.txn → Kept entry w
    settled : get w.txn entry.key ≡ inl (item_of entry) → w.pending_writes ≡ 0 → Kept entry w

  set_after_flush-Kept :
      (entry other : Entry) (w w' : ReadWriter badger) (err : Option StorageError)
      → other.key ≢ entry.key
      → (err ≡ none → get w.txn entry.key ≡ inl (item_of entry))
      → w.pending_writes ≡ 0
      → set_after_flush badger (w, err) other ≡ (w', none)
      → Kept entry w'
  unfolding set_after_flush
  set_after_flush-Kept entry other w w' (some err) ne found zero h = cc
  set_after_flush-Kept entry other w w' none ne found zero h =
      elim (Sum-cases (set_entry w.txn other)) [
        | inr (err, e) ↦ cc
        | inl (t, e) ↦
            let done = ap (λ r. r.0) (rw (e, set_after_flush) at h) in
            subst (Kept entry) done
              (settled (laws.get_other w.txn t other entry.key e ne ∙ found refl) zero)
      ]

  -- Writing another entry keeps it.
  pub write_entry-Kept :
      (entry other : Entry) (w w' : ReadWriter badger)
      → Wrote badger entry w.txn
      → other.key ≢ entry.key
      → write_entry badger w other ≡ (w', none)
      → Kept entry w'
  unfolding write_entry flush
  write_entry-Kept entry other w w' x ne h = elim (Sum-cases (set_entry w.txn other)) [
    | inl (t, e) ↦
        let done = ap (λ r. r.0) (rw (e, write_entry) at h) in
        subst (Kept entry) done (unflushed (wrote_before w.txn t other x ne e))
    | inr (txn_too_big, e) ↦
        let counted = record w { pending_writes = w.pending_writes + 1 } in
        let (w1, err) = flush badger counted in
        set_after_flush-Kept entry other w1 w' err ne
          (λ ok. flush-get entry counted w1 x (ap (λ o. (w1, o)) ok)) refl
          (rw (e, write_entry) at h)
    | inr (key_not_found, e) ↦ absurd (ground arith)
    | inr (other_error text, e) ↦ absurd (ground arith)
  ]

  abbrev meta_of : Bool → ℕ
  meta_of sampled = if sampled then entry_meta_trace_sampled else entry_meta_trace_unsampled

  read_meta : (b : Bool) → (meta_of b == entry_meta_trace_sampled) ≡ b
  read_meta true = refl
  read_meta false = refl

  -- A sampling decision that is written, also through a flush, is what `IsTraceSampled` reads then.
  pub write_trace_sampled-is_trace_sampled :
      (ttl : ℤ) (w w' : ReadWriter badger) (trace_id : String) (sampled : Bool)
      → write_trace_sampled badger ttl w trace_id sampled ≡ (w', none)
      → is_trace_sampled badger w' trace_id ≡ inl sampled
  unfolding write_trace_sampled is_trace_sampled
  write_trace_sampled-is_trace_sampled ttl w w' trace_id sampled h =
      let entry : Entry = record {
        key = trace_id;
        value = [];
        user_meta = meta_of sampled;
        ttl = ttl;
      } in
      rw (laws.get_wrote w'.txn entry (write_entry-Wrote badger w w' entry h), is_trace_sampled)
        (ap inl (read_meta sampled))

  -- A sampling decision that is written without an error is also what is read after a flush that
  -- succeeds, if Badger satisfies its laws.
  pub flush-is_trace_sampled :
      (ttl : ℤ) (w w' w'' : ReadWriter badger) (trace_id : String) (sampled : Bool)
      → write_trace_sampled badger ttl w trace_id sampled ≡ (w', none)
      → flush badger w' ≡ (w'', none)
      → is_trace_sampled badger w'' trace_id ≡ inl sampled
  unfolding write_trace_sampled is_trace_sampled
  flush-is_trace_sampled ttl w w' w'' trace_id sampled h f =
      let entry : Entry = record {
        key = trace_id;
        value = [];
        user_meta = meta_of sampled;
        ttl = ttl;
      } in
      rw (flush-get entry w' w'' (write_entry-Wrote badger w w' entry h) f, is_trace_sampled)
        (ap inl (read_meta sampled))
