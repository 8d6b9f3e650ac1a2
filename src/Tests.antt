-- ===== src/Tests.antt =====
-- Concrete calls: a keyspace in memory, one agent, one DID and one carrier.
mod Inbound
mod Outbound
mod Live
mod Login
mod Store
mod Totp
use callvoice.Common.{ℕ, Option, none, some, List, [], ◌∷◌, Text, codes, Result, ok, err}
use callvoice.Common.Int.{pos}
use callvoice.Services.{World, Value, text, number, lost}
use callvoice.Services.Memory.{memory, Keyspace}
use callvoice.Presence.{Presence, encode_presence}

abbrev empty : Keyspace
empty k = none

abbrev pub presence : Presence
presence = record { ttl = 60 }

abbrev pub world_of : Keyspace → List (Result Text) → World Keyspace
world_of s replies = record {
  store = s;
  outcomes = [];
  replies = replies;
  sent = [];
  events = [];
  fresh = λ n. n;
  drawn = 1;
  now = 100;
}

abbrev pub plain : World Keyspace
plain = world_of empty []

-- A world in which the first command loses its reply.
abbrev pub flaky : World Keyspace
flaky = record plain { outcomes = lost ∷ [] }
