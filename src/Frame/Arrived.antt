-- ===== src/Frame/Arrived.antt =====
-- A connection of src/core/Connection.cpp that has received these bytes and nothing else.
use snframe.Base.{ℕ, ◌+◌, ◌≤◌, ◌≡◌, ◌∙◌, refl, inl, List, length, arith}
use snframe.Memory.{put, length-put}
use snframe.Packet.{null_msg}
use snframe.Frame.{Frame, blank_buf, length-blank_buf, recv_buf_len}
use snframe.Frame.Window.{window, take-put}
use snframe.Frame.Delivery.{IsFrame}

-- A connection whose buffer starts with these bytes.
abbrev pub arrived : List ℕ → Frame
arrived xs = record {
  buf = put blank_buf 0 xs;
  buf_len = length xs;
  pkt = null_msg;
  less_pkt_len = 0;
}

pub arrived-IsFrame : (xs : List ℕ) → length xs ≤ recv_buf_len → IsFrame (arrived xs)
arrived-IsFrame xs h = record {
  full = length-put blank_buf 0 xs ∙ length-blank_buf;
  inside = h;
  part = inl refl;
}

pub window-arrived :
    (xs : List ℕ) → length xs ≤ recv_buf_len → window (put blank_buf 0 xs) 0 (length xs) ≡ xs
window-arrived xs h = rw none_before at (take-put blank_buf 0 xs (omega (arith, length-blank_buf)))
  where
    none_before : 0 + length xs ≡ length xs
    none_before = omega arith
