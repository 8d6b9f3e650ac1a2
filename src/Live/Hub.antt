-- ===== src/Live/Hub.antt =====
-- services/edge/internal/live/hub.go: events to the subscribers of each user. A channel is its number
-- and the events that wait in its buffer; the mutex makes each operation one step.
pub mod Invariant
use callvoice.Common.{
  ℕ, suc, ◌+◌, Bool, List, [], ◌∷◌, ◌++◌, Text, eqb, length, ltb, if◌then◌else◌, ◌==◌,
}

pub record HubEvent : Type 0 where
  pub type : Text
  pub payload : List (Text × Text)

pub record Channel : Type 0 where
  pub id : ℕ
  pub queue : List HubEvent

pub record Hub : Type 0 where
  pub subs : List (Text × List Channel)
  -- The channels made, and the ones closed, the latest first.
  pub made : ℕ
  pub closed : List ℕ

abbrev pub buf_size : ℕ
buf_size = 16

unfoldable pub new_hub : Hub
new_hub = record { subs = []; made = 0; closed = [] }

-- The channel added to the set of its user, which is made if it is missing.
unfoldable pub add_channel :
    Text → Channel → List (Text × List Channel) → List (Text × List Channel)
add_channel user_id c [] = (user_id, c ∷ []) ∷ []
add_channel user_id c ((u, cs) ∷ m) =
    let rest = add_channel user_id c m in if eqb u user_id then (u, c ∷ cs) ∷ m else (u, cs) ∷ rest

-- `Subscribe`, with the number of the new channel.
unfoldable pub subscribe : Text → Hub → ℕ × Hub
subscribe user_id h = (
  h.made,
  record h {
    subs = add_channel user_id (record { id = h.made; queue = [] }) h.subs;
    made = suc h.made;
  },
)

unfoldable pub has_channel : ℕ → List Channel → Bool
has_channel id [] = Bool.false
has_channel id (c ∷ cs) = if c.id == id then Bool.true else has_channel id cs

unfoldable pub without : ℕ → List Channel → List Channel
without id [] = []
without id (c ∷ cs) = let rest = without id cs in if c.id == id then rest else c ∷ rest

-- A user whose set is empty is deleted from the map.
abbrev pub with_set : Text → List Channel → List (Text × List Channel) → List (Text × List Channel)
with_set u [] m = m
with_set u (c ∷ cs) m = (u, c ∷ cs) ∷ m

unfoldable pub drop_channel : Text → ℕ → List (Text × List Channel) → List (Text × List Channel)
drop_channel user_id id [] = []
drop_channel user_id id ((u, cs) ∷ m) =
    let rest = drop_channel user_id id m in
    if eqb u user_id then with_set u (without id cs) m else (u, cs) ∷ rest

unfoldable pub channels_of : Text → List (Text × List Channel) → List Channel
channels_of user_id [] = []
channels_of user_id ((u, cs) ∷ m) = if eqb u user_id then cs else channels_of user_id m

-- `Unsubscribe`: a channel of the user is removed and closed.
unfoldable pub unsubscribe : Text → ℕ → Hub → Hub
unfolding has_channel channels_of
unsubscribe user_id id h = record h {
  subs = drop_channel user_id id h.subs;
  closed = if has_channel id (channels_of user_id h.subs) then id ∷ h.closed else h.closed;
}

-- A send that does not block: the event waits in the buffer, or is dropped if that is full.
abbrev pub offer : HubEvent → Channel → Channel
offer ev c = if ltb (length c.queue) buf_size then record c { queue = c.queue ++ (ev ∷ []) } else c

unfoldable pub offer_all : HubEvent → List Channel → List Channel
offer_all ev [] = []
offer_all ev (c ∷ cs) = offer ev c ∷ offer_all ev cs

unfoldable pub send_to : Text → HubEvent → List (Text × List Channel) → List (Text × List Channel)
unfolding offer_all
send_to user_id ev [] = []
send_to user_id ev ((u, cs) ∷ m) =
    let rest = send_to user_id ev m in
    if eqb u user_id then (u, offer_all ev cs) ∷ m else (u, cs) ∷ rest

-- `Broadcast`.
unfoldable pub broadcast : Text → HubEvent → Hub → Hub
unfolding send_to
broadcast user_id ev h = record h { subs = send_to user_id ev h.subs }

unfoldable pub count_channels : List (Text × List Channel) → ℕ
count_channels [] = 0
count_channels ((u, cs) ∷ m) = length cs + count_channels m

-- `Len`.
unfoldable pub hub_len : Hub → ℕ
unfolding count_channels
hub_len h = count_channels h.subs
