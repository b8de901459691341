-- ===== src/Waf/Buffer.antt =====
-- EventBuffer of brisk-agent/waf/server.go: bounded, dropping the oldest. A flush takes the batch
-- in one step and, where the shipment fails, puts it back in another: events may be added between.
use brisk.Prelude.{
  ℕ, ◌-◌, zero, suc, Bytes, Bool, true, false, List, [], ◌∷◌, ◌++◌, ltb, if◌then◌else◌, length,
}

pub record Event : Type 0 where
  pub ts : ℕ
  pub zone : Bytes
  pub client_ip : Bytes
  pub country : Bytes
  pub rule_id : Bytes
  pub rule_type : Bytes
  pub action : Bytes
  pub mode : Bytes
  pub path : Bytes
  pub method : Bytes
  pub ua : Bytes
  pub message : Bytes

abbrev pub drop {ℓ} : {A : Type ℓ} → ℕ → List A → List A
drop zero xs = xs
drop (suc n) [] = []
drop (suc n) (x ∷ xs) = drop n xs

-- `if len(b.buf) > b.max { b.buf = b.buf[len(b.buf)-b.max:] }`
unfoldable pub bounded : ℕ → List Event → List Event
bounded max buf = if ltb max (length buf) then drop (length buf - max) buf else buf

pub record EventBuffer : Type 0 where
  pub buf : List Event
  pub max : ℕ

abbrev pub max_buffered_events : ℕ
max_buffered_events = 5_000

abbrev pub new_event_buffer : EventBuffer
new_event_buffer = record { buf = []; max = max_buffered_events }

unfoldable pub add_event : Event → EventBuffer → EventBuffer
unfolding bounded
add_event ev b = record b { buf = bounded b.max (b.buf ++ (ev ∷ [])) }

-- the first half of flush: the batch
unfoldable pub take_batch : EventBuffer → List Event × EventBuffer
take_batch b = (b.buf, record b { buf = [] })

-- the second half: nothing where the batch was shipped
unfoldable pub end_flush : Bool → List Event → EventBuffer → EventBuffer
unfolding bounded
end_flush true batch b = b
end_flush false batch b = record b { buf = bounded b.max (batch ++ b.buf) }
