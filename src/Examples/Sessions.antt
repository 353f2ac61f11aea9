-- ===== src/Examples/Sessions.antt =====
-- The camera's stream, opened.
use usb_video_class.Base.{ℕ, ◌≡◌, some, List, [], replicate, length-replicate, arith}
use usb_video_class.Base.Int.{ℤ}
use usb_video_class.Session.{Session, open_ctrl}
use usb_video_class.Session.Open.{Opens, open_ctrl-Opens}
use usb_video_class.Session.Close.{Reverts, open_ctrl-stream_close}
use usb_video_class.Examples.Controls.{camera, camera-KeepsSize, device}
use usb_video_class.Examples.Polling.{info}
use usb_video_class.Examples.Streams.{ctrl}

abbrev pub session : Session
session = record { device = record device { info = info }; streams = [] }

abbrev pub zeros : ℕ → List ℕ
zeros n = replicate n 0

open_ctrl-Opens_example :
    (o : ℤ × Session × List ℕ) × (open_ctrl camera zeros session ctrl [] ≡ some o)
    × Opens session ctrl o
open_ctrl-Opens_example =
    open_ctrl-Opens camera zeros camera-KeepsSize (λ n. length-replicate {A = ℕ} n 0) session ctrl
      [] (omega arith) (omega arith)

open_ctrl-stream_close_example :
    (o : ℤ × Session × List ℕ) × (open_ctrl camera zeros session ctrl [] ≡ some o)
    × Reverts camera session o
open_ctrl-stream_close_example =
    open_ctrl-stream_close camera zeros camera-KeepsSize (λ n. length-replicate {A = ℕ} n 0) session
      ctrl [] (omega arith) (omega arith)
