-- ===== src/PayloadError.antt =====
-- `payload_error_t` of include/libuvc/libuvc.h.
use usb_video_class.Base.Int.{ℤ, pos, negsuc}

abbrev pub none : ℤ
none = pos 0

abbrev pub big_header_length : ℤ
big_header_length = negsuc 1

abbrev pub invalid_header_length : ℤ
invalid_header_length = negsuc 2

abbrev pub reserved_bit_set : ℤ
reserved_bit_set = negsuc 3

abbrev pub error_bit_set : ℤ
error_bit_set = negsuc 4

abbrev pub overflow : ℤ
overflow = negsuc 6
