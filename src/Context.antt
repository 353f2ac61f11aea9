-- ===== src/Context.antt =====
-- `struct uvc_context` of include/libuvc/libuvc_internal.h with its list of open devices and the
-- event thread of src/init.c: what `uvc_init`, `uvc_open` and `uvc_close` do to it.
use usb_video_class.Base.{
  ℕ, Bool, true, false, not, ◌&&◌, ◌||◌, List, [], ◌∷◌, ◌++◌, ◌==◌, if◌then◌else◌,
}
use usb_video_class.Session.{Session}

-- `struct uvc_device_handle` in the context's list; `address` stands for its pointer, and
-- `status_xfer` says that there is a status transfer.
pub record Handle : Type 0 where
  pub address : ℕ
  pub session : Session
  pub is_isight : Bool
  pub status_xfer : Bool

-- `struct uvc_context`; `handles_events` says that a thread is in the loop of `_uvc_handle_events`.
pub record Context : Type 0 where
  pub own_usb_ctx : Bool
  pub open_devices : List Handle
  pub handles_events : Bool
  pub kill_handler_thread : Bool

-- The context that `uvc_init` makes, with libusb's context of its own or the caller's.
abbrev pub blank_context : Bool → Context
blank_context own = record {
  own_usb_ctx = own;
  open_devices = [];
  handles_events = false;
  kill_handler_thread = false;
}

-- `uvc_start_handler_thread`; a thread that finds the flag set returns at once.
unfoldable pub start_handler_thread : Context → Context
start_handler_thread ctx =
    if ctx.own_usb_ctx
    then record ctx { handles_events = ctx.handles_events || not ctx.kill_handler_thread }
    else ctx

unfoldable pub is_empty : List Handle → Bool
is_empty [] = true
is_empty (h ∷ hs) = false

-- The end of `uvc_open_internal`: the thread for the first device, and the list.
unfoldable pub add_device : Handle → Context → Context
add_device handle ctx =
    let ctx' =
      if ctx.own_usb_ctx && is_empty ctx.open_devices then start_handler_thread ctx else ctx in
    record ctx' { open_devices = ctx'.open_devices ++ handle ∷ [] }

unfoldable pub is_only : ℕ → List Handle → Bool
is_only address [] = false
is_only address (h ∷ []) = h.address == address
is_only address (h ∷ k ∷ hs) = false

-- `DL_DELETE (ctx->open_devices, devh)`
unfoldable pub remove_device : ℕ → List Handle → List Handle
remove_device address [] = []
remove_device address (h ∷ hs) = if h.address == address then hs else h ∷ remove_device address hs

-- What `uvc_close` does to the context: the join waits for the thread to find the flag.
unfoldable pub leave : ℕ → Context → Context
leave address ctx =
    let ctx' =
      if ctx.own_usb_ctx && is_only address ctx.open_devices
      then record ctx { kill_handler_thread = true; handles_events = false }
      else ctx in
    record ctx' { open_devices = remove_device address ctx'.open_devices }
