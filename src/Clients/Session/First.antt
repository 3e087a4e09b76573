-- ===== src/Clients/Session/First.antt =====
-- The first `connect` of a client.
use my_arbitrager.Prelude.{
  ◌≡◌, refl, sym, subst, Bool-cases, inl, inr, Bool, true, false, not, ◌&&◌, if-true, if-false,
  List, ◌++◌, Option, some,
}
use native.Mathlib.Omega.{arith}
use my_arbitrager.Prelude.Text.{Text}
use my_arbitrager.Clients.Session
use my_arbitrager.Clients.Session.{
  Client, Attempt, Request, Opening, opened, refused, open_stream, finish,
}
use my_arbitrager.Clients.Session.Binance
use my_arbitrager.Clients.Session.Coinbase
use my_arbitrager.Clients.Session.Kraken
use my_arbitrager.Clients.Session.Bybit
use my_arbitrager.Clients.Session.Reconnect.{Exchange, binance, coinbase, kraken, bybit, connect}

-- Every call before the subscription succeeds.
abbrev pub opens : Attempt → Bool
opens a =
    a.prepared && (a.host_name_set && (a.resolved && (a.reached && (a.secured && a.accepted))))

abbrev is_opened : Opening → Bool
is_opened refused = false
is_opened Opening.thrown = false
is_opened opened = true

open_stream-opened :
    (on_error : Opening) (a : Attempt) (host port target : Text)
    → is_opened on_error ≡ false
    → is_opened (open_stream on_error a host port target).1 ≡ opens a
unfolding open_stream
open_stream-opened on_error a host port target h = ground arith

-- The client is connected and has a reading thread, or neither.
abbrev pub IsUp : Bool → Client → Type 0
IsUp b c = (c.connected ≡ b) × (c.joinable ≡ b)

-- A `connect` that returns, and leaves the client up if it returns `true`.
abbrev pub Ends : Bool → Option (Bool × List Request × Client) → Type 0
Ends b outcome =
    (requests : List Request) × (c : Client) × (outcome ≡ some (b, requests, c)) × IsUp b c

finish-Ends :
    (o : List Request × Opening) (subscription : List Request) (c : Client)
    → IsUp false c
    → Ends (is_opened o.1) (finish o subscription c)
unfolding finish
finish-Ends (asked, refused) subscription c (off, idle) = (asked, c, refl, (off, idle))
finish-Ends (asked, Opening.thrown) subscription c (off, idle) =
    (asked, record c { connected = false }, refl, (refl, idle))
finish-Ends (asked, opened) subscription c (off, idle) = (
  asked ++ subscription,
  record c { connected = true; joinable = true },
  if-false _ _ idle,
  (refl, refl),
)

opened-Ends :
    (on_error : Opening) (a : Attempt) (host port target : Text) (subscription : List Request)
    (c : Client)
    → is_opened on_error ≡ false
    → IsUp false c
    → Ends (opens a) (finish (open_stream on_error a host port target) subscription c)
opened-Ends on_error a host port target subscription c h down =
    subst (λ b. Ends b (finish (open_stream on_error a host port target) subscription c))
      (open_stream-opened on_error a host port target h)
      (finish-Ends (open_stream on_error a host port target) subscription c down)

-- A `connect` of a client that is down, of either way to report an error.
pub connect-Ends :
    (e : Exchange) (a : Attempt) (symbols : List Text) (c : Client)
    → IsUp false c
    → Ends (opens a) (connect e a symbols c)
unfolding Binance.connect Coinbase.connect Kraken.connect Bybit.connect
connect-Ends binance a symbols c (off, idle) =
    subst (Ends (opens a)) (sym (if-false _ _ off))
      (opened-Ends refused a _ _ _ _ _ refl (off, idle))
connect-Ends coinbase a symbols c (off, idle) =
    subst (Ends (opens a)) (sym (if-false _ _ off))
      (opened-Ends Opening.thrown a _ _ _ _ _ refl (off, idle))
connect-Ends kraken a symbols c (off, idle) =
    subst (Ends (opens a)) (sym (if-false _ _ off))
      (opened-Ends refused a _ _ _ _ _ refl (off, idle))
connect-Ends bybit a symbols c (off, idle) =
    subst (Ends (opens a)) (sym (if-false _ _ off))
      (opened-Ends refused a _ _ _ _ _ refl (off, idle))

pub disconnect-IsUp : (c : Client) → IsUp false (Session.disconnect c)
unfolding Session.disconnect
disconnect-IsUp c = elim (Bool-cases (not c.connected && not c.joinable)) [
  | inl down ↦ subst (IsUp false) (sym (if-true _ _ down)) (ground arith, ground arith)
  | inr up ↦ subst (IsUp false) (sym (if-false _ _ up)) (refl, refl)
]
