-- ===== src/UvcError.antt =====
-- `uvc_error_t` of include/libuvc/libuvc.h: C `int`s, as libusb's results are.
use usb_video_class.Base.Int.{ℤ, pos, negsuc}

abbrev pub success : ℤ
success = pos 0

abbrev pub io : ℤ
io = negsuc 0

abbrev pub invalid_param : ℤ
invalid_param = negsuc 1

abbrev pub access : ℤ
access = negsuc 2

abbrev pub no_device : ℤ
no_device = negsuc 3

abbrev pub not_found : ℤ
not_found = negsuc 4

abbrev pub busy : ℤ
busy = negsuc 5

abbrev pub timeout : ℤ
timeout = negsuc 6

abbrev pub overflow : ℤ
overflow = negsuc 7

abbrev pub pipe : ℤ
pipe = negsuc 8

abbrev pub interrupted : ℤ
interrupted = negsuc 9

abbrev pub no_mem : ℤ
no_mem = negsuc 10

abbrev pub not_supported : ℤ
not_supported = negsuc 11

abbrev pub invalid_device : ℤ
invalid_device = negsuc 49

abbrev pub invalid_mode : ℤ
invalid_mode = negsuc 50

abbrev pub callback_exists : ℤ
callback_exists = negsuc 51

abbrev pub other : ℤ
other = negsuc 98
