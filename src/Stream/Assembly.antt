-- ===== src/Stream/Assembly.antt =====
-- What the payload decoder of src/stream.c is to do, over plain lists: images are put together
-- from the data of packets, and each is announced once.
use usb_video_class.Base.{
  ℕ, ◌≡◌, refl, ◌≢◌, Bool, ◌&&◌, ◌||◌, not, Option, List, [], ◌∷◌, ◌++◌, ◌==◌, if◌then◌else◌,
  length, take,
}
use usb_video_class.Stream.{Stream, max_size}

-- `acc` is the image so far, `frames` the images announced, newest first, and `held` the one that
-- a reader finds. The table of transfers
-- and the running flag are there because no packet may change them.
pub record Assembly : Type 0 where
  pub limit : ℕ
  pub fid : ℕ
  pub acc : List ℕ
  pub frames : List (List ℕ)
  pub held : List ℕ
  pub transfers : List (Option ℕ)
  pub running : Bool

abbrev pub view : Stream → Assembly
view s = record {
  limit = max_size s;
  fid = s.fid;
  acc = take s.got_bytes s.outbuf;
  frames = s.published;
  held = take s.hold_bytes s.holdbuf;
  transfers = s.transfers;
  running = s.running;
}

abbrev pub announce : Assembly → Assembly
announce a = record a { acc = []; frames = a.acc ∷ a.frames; held = a.acc }

-- A new frame ID ends an image that has any data.
abbrev pub turn : ℕ → Assembly → Assembly
turn fid a =
    let b : Assembly = if not (a.fid == fid) && not (length a.acc == 0) then announce a else a in
    record b { fid = fid }

-- An image is complete at the end-of-frame bit, or when it is as long as it may be.
abbrev pub finish : Bool → Assembly → Assembly
finish eof a = if eof || (length a.acc == a.limit) then announce a else a

-- Data is cut at the limit; a packet without data changes nothing, its end-of-frame bit included.
abbrev pub extend : Bool → List ℕ → Assembly → Assembly
extend eof [] a = a
extend eof (b ∷ bs) a = finish eof (record a { acc = take a.limit (a.acc ++ b ∷ bs) })

pub extend-some :
    (eof : Bool) (bs : List ℕ) (a : Assembly)
    → length bs ≢ 0
    → extend eof bs a ≡ finish eof (record a { acc = take a.limit (a.acc ++ bs) })
extend-some eof [] a h = absurd (h refl)
extend-some eof (b ∷ bs) a h = refl

-- A packet with a header.
abbrev pub receive : ℕ → Bool → List ℕ → Assembly → Assembly
receive fid eof bs a = extend eof bs (turn fid a)
