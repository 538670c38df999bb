-- ===== src/Tests/Storage.antt =====
-- The storage over a database that is a list of entries, with transactions of at most one write.
use apm_server.Prelude.{
  ℕ, suc, ◌≡◌, ◌≢◌, refl, sym, ap, ◌∙◌, String, concat, Option, none, some, true, List, [], ◌∷◌,
  ◌⊎◌, inl, inr, Member, Bool-cases, arith, string_eq, str_eq, str_eq_iff, subst, ltb,
  if◌then◌else◌,
}
use apm_server.Prelude.Maps.{lookup, insert, lookup-insert_self, lookup-insert_ne}
use text.Mathlib.Text.{starts_with}
use text.Mathlib.TextEquality.{starts_with_iff}
use text.Mathlib.TextBridge.{IsPrefix}
use text.Mathlib.TextLemmas.{prefix-append}
use apm_server.Sampling.Storage.{Entry, Item, BadgerError, key_not_found, txn_too_big, Badger}
use apm_server.Sampling.Storage.Decisions.{item_of, Wrote, wrote_now, wrote_before, BadgerLaws}

abbrev Entries : Type 0
Entries = List (String × Entry)

-- The entries that a transaction sees, and the number of its writes.
abbrev Writes : Type 0
Writes = Entries × ℕ

abbrev items_with : String → Entries → List Item
items_with prefix [] = []
items_with prefix ((key, entry) ∷ entries) =
    if starts_with key prefix
    then item_of entry ∷ items_with prefix entries
    else items_with prefix entries

abbrev find : Option Entry → Item ⊎ BadgerError
find none = inr key_not_found
find (some entry) = inl (item_of entry)

abbrev put : Writes → Entry → Writes ⊎ BadgerError
put t entry = if ltb 0 t.1 then inr txn_too_big else inl (insert entry.key entry t.0, suc t.1)

abbrev pub map_badger : Badger
map_badger = record {
  Db = Entries;
  Txn = Writes;
  new_transaction = λ d. (d, 0);
  get = λ t key. find (lookup key t.0);
  set_entry = put;
  delete = λ t key. inl t;
  commit = λ d t. (t.0, none);
  iterate = λ t prefix. items_with prefix t.0;
}

put_entries :
    (t t' : Writes) (entry : Entry) → put t entry ≡ inl t' → insert entry.key entry t.0 ≡ t'.0
put_entries t t' entry h = elim (Bool-cases (ltb 0 t.1)) [
  | inl full ↦ absurd (ground arith)
  | inr room ↦ ground arith
]

found-Wrote :
    (entry : Entry) (t : Writes) → Wrote map_badger entry t → lookup entry.key t.0 ≡ some entry
found-Wrote entry _ (wrote_now t t' e) =
    ap (lookup entry.key) (sym (put_entries t t' entry e)) ∙ lookup-insert_self entry.key entry t.0
found-Wrote entry _ (wrote_before t t' other x ne e) =
    ap (lookup entry.key) (sym (put_entries t t' other e))
    ∙ lookup-insert_ne other.key entry.key other t.0 ne
    ∙ found-Wrote entry t x

items_with-Member :
    (prefix rest : String) (entries : Entries) (entry : Entry)
    → lookup (concat prefix rest) entries ≡ some entry
    → Member (item_of entry) (items_with prefix entries)
unfolding lookup
items_with-Member prefix rest [] entry h = cc
items_with-Member prefix rest ((key, e) ∷ entries) entry h =
    elim (Bool-cases (str_eq key (concat prefix rest))) [
      | inl same ↦
          let begins : starts_with key prefix ≡ true =
            let whole = (str_eq_iff key (concat prefix rest)).0 same in
            (starts_with_iff key prefix).1
              (subst (IsPrefix prefix) (sym whole) (prefix-append prefix rest)) in
          let it : e ≡ entry = ground arith in rw begins (Member.head (ap item_of (sym it)))
      | inr other ↦
          let later = items_with-Member prefix rest entries entry (ground arith) in
          elim (Bool-cases (starts_with key prefix)) [
            | inl b ↦ rw b (Member.tail later)
            | inr b ↦ rw b later
          ]
    ]

found_get :
    (o : Option Entry) (item : Item)
    → find o ≡ inl item
    → (entry : Entry) × (o ≡ some entry) × (item_of entry ≡ item)
found_get none item h = cc
found_get (some entry) item h = (entry, refl, cc)

get_put :
    (t t' : Writes) (entry : Entry) (key : String)
    → put t entry ≡ inl t'
    → entry.key ≢ key
    → find (lookup key t'.0) ≡ find (lookup key t.0)
get_put t t' entry key h ne =
    ap (λ d. find (lookup key d)) (sym (put_entries t t' entry h))
    ∙ ap find (lookup-insert_ne entry.key key entry t.0 ne)

pub map_badger_laws : BadgerLaws map_badger
map_badger_laws = record {
  get_wrote = λ t entry x. ap find (found-Wrote entry t x);
  get_other = get_put;
  get_commit = λ d d' t entry x h.
      ap (λ e. find (lookup entry.key e)) (sym (ap (λ r. r.0) h)) ∙ ap find (found-Wrote entry t x);
  iterate_get = λ t prefix rest item h.
      let (entry, e, same) = found_get (lookup (concat prefix rest) t.0) item h in
      subst (λ i. Member i (items_with prefix t.0)) same
        (items_with-Member prefix rest t.0 entry e);
}
