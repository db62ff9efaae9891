-- ===== src/Ws/Order.antt =====
-- A session of internal/engine/a/transport/ws_handler.go while only the reader writes.
use sys_escape.Prelude.{ℕ, ◌≡◌, refl, Bool, true, false, String, if◌then◌else◌}
use sys_escape.Prelude.Int.{ℤ}
use sys_escape.Ws.Connection.{idle}
use sys_escape.Ws.Session.{Session, closing, finish, fail}
use sys_escape.Ws.InOrder.{InOrder, close_with-InOrder}

pub record Orderly {P : Type 0} (base : ℤ) (s : Session P) : Type 0 where
  pub in_order : InOrder base s.line
  pub no_reader : s.reader ≡ idle
  pub no_streamer : s.streamer ≡ idle

-- A property of both branches.
pub if_both :
    {A : Type 0} (Q : A → Type 0) (b : Bool) (x y : A) → Q x → Q y → Q (if b then x else y)
if_both Q true x y h k = h
if_both Q false x y h k = k

module _ {P : Type 0} (base : ℤ) where
  pub finish-Orderly : (s : Session P) → Orderly base s → Orderly base (finish s)
  unfolding finish
  finish-Orderly s v = record {
    in_order = close_with-InOrder base s.line _ _ v.in_order;
    no_reader = refl;
    no_streamer = v.no_streamer;
  }

  pub closing-Orderly :
      (code : ℕ) (reason : String) (s : Session P)
      → Orderly base s
      → Orderly base (closing code reason s)
  closing-Orderly code reason s v = record {
    in_order = close_with-InOrder base s.line code reason v.in_order;
    no_reader = v.no_reader;
    no_streamer = v.no_streamer;
  }

  pub fail-Orderly :
      (code : ℕ) (reason : String) (s : Session P)
      → Orderly base s
      → Orderly base (fail code reason s)
  fail-Orderly code reason s v =
      finish-Orderly (closing code reason s) (closing-Orderly code reason s v)
