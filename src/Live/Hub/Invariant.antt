-- ===== src/Live/Hub/Invariant.antt =====
-- What every hub satisfies, and what a broadcast delivers.
use callvoice.Common.{
  ℕ, suc, ◌≡◌, ◌≤◌, refl, ap, Bool-cases, List, [], ◌∷◌, Text, eqb, length, length-append, ltb,
  arith, ◌==◌, All, inl, inr,
}
use callvoice.Live.Hub.{
  Hub, HubEvent, Channel, buf_size, add_channel, subscribe, without, with_set, drop_channel,
  unsubscribe, offer, offer_all, send_to, broadcast, count_channels, hub_len,
}

-- A channel holds no more events than its buffer.
abbrev pub Fits : Channel → Type 0
Fits c = length c.queue ≤ buf_size

-- A user in the map has a channel, and his channels fit.
abbrev pub Served : Text × List Channel → Type 0
Served (u, cs) = (1 ≤ length cs) × All Fits cs

abbrev pub WellFormed : Hub → Type 0
WellFormed h = All Served h.subs

-- What a hub is asked to do.
pub data Request : Type 0 where
  joins : Text → Request
  leaves : Text → ℕ → Request
  sends : Text → HubEvent → Request

unfoldable pub serve : Request → Hub → Hub
serve (joins u) h = (subscribe u h).1
serve (leaves u id) h = unsubscribe u id h
serve (sends u ev) h = broadcast u ev h

unfoldable pub serve_all : List Request → Hub → Hub
serve_all [] h = h
serve_all (r ∷ rs) h = serve_all rs (serve r h)

add_channel-Served :
    (u : Text) (c : Channel) (m : List (Text × List Channel))
    → Fits c
    → All Served m
    → All Served (add_channel u c m)
unfolding add_channel
add_channel-Served u c [] f h = ((omega arith, (f, tt)), tt)
add_channel-Served u c ((v, cs) ∷ m) f ((some_, fits), rest) = elim (Bool-cases (eqb v u)) [
  | inl same ↦ rw same ((omega arith, (f, fits)), rest)
  | inr other ↦ rw other ((some_, fits), add_channel-Served u c m f rest)
]

without-Fits : (id : ℕ) (cs : List Channel) → All Fits cs → All Fits (without id cs)
unfolding without
without-Fits id [] h = tt
without-Fits id (c ∷ cs) (f, h) = elim (Bool-cases (c.id == id)) [
  | inl same ↦ rw same (without-Fits id cs h)
  | inr other ↦ rw other (f, without-Fits id cs h)
]

with_set-Served :
    (u : Text) (cs : List Channel) (m : List (Text × List Channel))
    → All Fits cs
    → All Served m
    → All Served (with_set u cs m)
with_set-Served u [] m f h = h
with_set-Served u (c ∷ cs) m f h = ((omega arith, f), h)

drop_channel-Served :
    (u : Text) (id : ℕ) (m : List (Text × List Channel))
    → All Served m
    → All Served (drop_channel u id m)
unfolding drop_channel
drop_channel-Served u id [] h = tt
drop_channel-Served u id ((v, cs) ∷ m) ((some_, fits), rest) = elim (Bool-cases (eqb v u)) [
  | inl same ↦ rw same (with_set-Served v (without id cs) m (without-Fits id cs fits) rest)
  | inr other ↦ rw other ((some_, fits), drop_channel-Served u id m rest)
]

offer-Fits : (ev : HubEvent) (c : Channel) → Fits c → Fits (offer ev c)
offer-Fits ev c f = elim (Bool-cases (ltb (length c.queue) buf_size)) [
  | inl room ↦
      let small : suc (length c.queue) ≤ buf_size = ground arith in
      rw room (omega (arith, small, length-append c.queue (ev ∷ [])))
  | inr full ↦ rw full f
]

offer_all-Fits :
    (ev : HubEvent) (cs : List Channel)
    → All Fits cs
    → All Fits (offer_all ev cs) × (length (offer_all ev cs) ≡ length cs)
unfolding offer_all
offer_all-Fits ev [] h = (tt, refl)
offer_all-Fits ev (c ∷ cs) (f, h) =
    let (fits, same) = offer_all-Fits ev cs h in ((offer-Fits ev c f, fits), ap suc same)

send_to-Served :
    (u : Text) (ev : HubEvent) (m : List (Text × List Channel))
    → All Served m
    → All Served (send_to u ev m) × (count_channels (send_to u ev m) ≡ count_channels m)
unfolding send_to count_channels
send_to-Served u ev [] h = (tt, refl)
send_to-Served u ev ((v, cs) ∷ m) ((some_, fits), rest) =
    let (fits', same_length) = offer_all-Fits ev cs fits in
    let (rest', count) = send_to-Served u ev m rest in
    elim (Bool-cases (eqb v u)) [
      | inl same ↦
          rw same (((omega (arith, some_, same_length), fits'), rest), omega (arith, same_length))
      | inr other ↦ rw other (((some_, fits), rest'), omega (arith, count))
    ]

serve-WellFormed : (r : Request) (h : Hub) → WellFormed h → WellFormed (serve r h)
unfolding serve subscribe unsubscribe broadcast
serve-WellFormed (joins u) h ok =
    add_channel-Served u (record { id = h.made; queue = [] }) h.subs (omega arith) ok
serve-WellFormed (leaves u id) h ok = drop_channel-Served u id h.subs ok
serve-WellFormed (sends u ev) h ok = (send_to-Served u ev h.subs ok).0

-- After any sequence of subscriptions, unsubscriptions and broadcasts on a hub that is well formed,
-- every user in the map has at least one channel, and no channel holds more events than its buffer.
pub serve_all-WellFormed :
    (rs : List Request) (h : Hub) → WellFormed h → WellFormed (serve_all rs h)
unfolding serve_all
serve_all-WellFormed [] h ok = ok
serve_all-WellFormed (r ∷ rs) h ok = serve_all-WellFormed rs (serve r h) (serve-WellFormed r h ok)

-- A subscription adds one to the subscribers counted.
add_channel-count :
    (u : Text) (c : Channel) (m : List (Text × List Channel))
    → count_channels (add_channel u c m) ≡ suc (count_channels m)
unfolding add_channel count_channels
add_channel-count u c [] = refl
add_channel-count u c ((v, cs) ∷ m) = elim (Bool-cases (eqb v u)) [
  | inl same ↦ rw same (omega arith)
  | inr other ↦ rw other (omega (arith, add_channel-count u c m))
]

-- A subscription makes the count of subscribers one higher, and a broadcast in a hub that is well
-- formed leaves it as it is, also when events are dropped.
pub hub_len-counts :
    (u v : Text) (ev : HubEvent) (h : Hub)
    → WellFormed h
    → (hub_len (subscribe u h).1 ≡ suc (hub_len h)) × (hub_len (broadcast v ev h) ≡ hub_len h)
unfolding hub_len subscribe broadcast
hub_len-counts u v ev h ok = (
  add_channel-count u (record { id = h.made; queue = [] }) h.subs,
  (send_to-Served v ev h.subs ok).1,
)
