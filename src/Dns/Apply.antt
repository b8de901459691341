-- ===== src/Dns/Apply.antt =====
-- Apply of brisk-control/internal/dns/reconcile.go. The DNS provider behind AddRecord, UpdateRecord,
-- DeleteRecord and ListRecords is a parameter; its calls fail, or do what Law says.
pub mod Index
pub mod Settled
pub mod Steps
pub mod Writes
pub mod Passes
pub mod Edge
pub mod Run
pub mod Converge
mod Examples
use brisk.Prelude.{
  ℕ, Bytes, ◌≡◌, ◌≢◌, ◌↔◌, ◌⊎◌, Option, none, some, Bool, true, false, List, [], ◌∷◌, In, ℤ, pos,
  eq_ℤ, str_eq, if◌then◌else◌, opt_or,
}
use brisk.Dns.{Record}
use brisk.Dns.Diff.{Kind, add, enable, disable, update, remove, Action}

pub record Provider : Type 1 where
  pub State : Type 0
  pub list_records : State → List Record
  -- the id of the new record, or none for an error
  pub add_record : Record → State → Option ℕ × State
  -- whether it worked
  pub update_record : ℕ → Record → State → Bool × State
  pub delete_record : ℕ → State → Bool × State

-- Record{}
abbrev pub no_record : Record
no_record = record {
  id = 0;
  type = pos 0;
  ttl = pos 0;
  value = [];
  name = [];
  weight = pos 0;
  priority = pos 0;
  disabled = false;
  comment = [];
  smart_routing_type = pos 0;
  latency_zone = [];
  monitor_type = pos 0;
  monitor_status = pos 0;
  geo_latitude = pos 0;
  geo_longitude = pos 0;
}

-- The record after an update, which is a partial merge: a field that is not sent keeps its value.
-- The fields with `omitempty` are not sent where they are zero.
abbrev pub sent_or : ℤ → ℤ → ℤ
sent_or new old = if eq_ℤ new (pos 0) then old else new

unfoldable pub merged : Record → Record → Record
unfolding str_eq
merged old r = record r {
  id = old.id;
  ttl = sent_or r.ttl old.ttl;
  priority = sent_or r.priority old.priority;
  comment = if str_eq r.comment [] then old.comment else r.comment;
  monitor_status = sent_or r.monitor_status old.monitor_status;
}

-- What Apply leaves: the actions that were applied, whether there was no error, and the provider.
pub record Applied (P : Provider) : Type 0 where
  pub applied : List Action
  pub succeeded : Bool
  pub state : P.State

module _ (P : Provider) where
  abbrev pub desired_of : Action → Record
  desired_of a = opt_or a.desired no_record

  abbrev pub and_applied : Action → Applied P → Applied P
  and_applied a r = record r { applied = a ∷ r.applied }

  abbrev pub stop : P.State → Applied P
  stop s = record { applied = []; succeeded = false; state = s }

  abbrev pub after_add : Action → Option ℕ × P.State → (P.State → Applied P) → Applied P
  after_add a (none, s) rest = stop s
  after_add a (some id, s) rest = and_applied (record a { record_id = id }) (rest s)

  abbrev pub after_write : Action → Bool × P.State → (P.State → Applied P) → Applied P
  after_write a (false, s) rest = stop s
  after_write a (true, s) rest = and_applied a (rest s)

  abbrev pub apply_one : Kind → Action → P.State → (P.State → Applied P) → Applied P
  apply_one add a s rest = after_add a (P.add_record (desired_of a) s) rest
  apply_one enable a s rest = after_write a (P.update_record a.record_id (desired_of a) s) rest
  apply_one disable a s rest = after_write a (P.update_record a.record_id (desired_of a) s) rest
  apply_one update a s rest = after_write a (P.update_record a.record_id (desired_of a) s) rest
  apply_one remove a s rest = after_write a (P.delete_record a.record_id s) rest

  unfoldable pub apply : List Action → P.State → Applied P
  apply [] s = record { applied = []; succeeded = true; state = s }
  apply (a ∷ more) s = apply_one a.kind a s (λ s. apply more s)

  abbrev pub Lists : P.State → Record → Type 0
  Lists s q = In q (P.list_records s)

  -- The provider's documented behaviour, where a call works: an added record is listed under an id
  -- that none had, with a priority and a monitor status of the provider's choice, if its TTL is
  -- sent; an update merges what is sent into the record with the id; a deletion takes it off the
  -- list.
  pub record Law : Type 0 where
    pub added :
        (r : Record) (s : P.State) (id : ℕ) (t : P.State)
        → P.add_record r s ≡ (some id, t)
        → r.ttl ≢ pos 0
        → (priority status : ℤ) × ((q : Record)
            → Lists t q ↔ (
                Lists s q
                ⊎ (q ≡ record r { id = id; priority = priority; monitor_status = status })))
    pub added_fresh :
        (r : Record) (s : P.State) (id : ℕ) (t : P.State)
        → P.add_record r s ≡ (some id, t)
        → (q : Record) → Lists s q
        → q.id ≢ id
    pub updated :
        (id : ℕ) (r : Record) (s t : P.State)
        → P.update_record id r s ≡ (true, t)
        → (q : Record)
        → Lists t q ↔ (
            (Lists s q × (q.id ≢ id))
            ⊎ ((old : Record) × Lists s old × (old.id ≡ id) × (q ≡ merged old r)))
    pub deleted :
        (id : ℕ) (s t : P.State)
        → P.delete_record id s ≡ (true, t)
        → (q : Record) → Lists t q ↔ (Lists s q × (q.id ≢ id))
