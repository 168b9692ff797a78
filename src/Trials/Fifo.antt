-- ===== src/Trials/Fifo.antt =====
-- test_cpp/src/WaitFifo.cpp: waiting for a character in a FIFO. What the system answers is a
-- parameter.
use nettool.Base.{◌&&◌, not, ltb_ℤ, ◌==ℤ◌, if◌then◌else◌, List, [], ◌∷◌, ℤ, pos, minus_one}

-- A round: the answers of poll, ioctl and read, the bytes that ioctl counts, and the first byte
-- that read stores, as a char.
pub record Round : Type 0 where
  pub polled : ℤ
  pub counted : ℤ
  pub available : ℤ
  pub read : ℤ
  pub first : ℤ

-- How the loop goes on: it ended with a value, it still waits, or read may write behind the 1025
-- bytes of the buffer.
pub data Wait : Type 0 where
  answered : ℤ → Wait
  waits : Wait
  overflows : Wait

-- WaitFifoString
unfoldable pub wait_fifo_string : ℤ
wait_fifo_string = pos 0

-- The loop of WaitFifoChar over its rounds.
unfoldable pub wait_fifo_rounds : ℤ → List Round → Wait
wait_fifo_rounds condition [] = waits
wait_fifo_rounds condition (r ∷ rounds) =
    let rest = wait_fifo_rounds condition rounds in
    if r.polled ==ℤ minus_one
    then answered minus_one
    else if r.polled ==ℤ pos 0
    then answered (pos 0)
    else if not (ltb_ℤ (pos 0) r.available)
    then rest
    else if ltb_ℤ (pos 1025) r.available
    then overflows
    else if ltb_ℤ (pos 0) r.read && (r.first ==ℤ condition)
    then answered r.read
    else rest

-- The calls with lasting effects, in order.
pub data FifoCall : Type 0 where
  unlink mkfifo open_fifo : FifoCall
  close : ℤ → FifoCall

-- WaitFifoChar, with the answers of mkfifo and open. Without a FIFO it closes descriptor 0.
unfoldable pub wait_fifo_char : ℤ → ℤ → ℤ → List Round → Wait × List FifoCall
wait_fifo_char made opened condition rounds =
    if not (made ==ℤ pos 0)
    then (answered made, unlink ∷ mkfifo ∷ close (pos 0) ∷ unlink ∷ [])
    else if ltb_ℤ opened (pos 0)
    then (answered minus_one, unlink ∷ mkfifo ∷ open_fifo ∷ close opened ∷ unlink ∷ [])
    else (
      wait_fifo_rounds condition rounds,
      unlink ∷ mkfifo ∷ open_fifo ∷ close opened ∷ unlink ∷ [],
    )
