-- ===== src/Parrot.antt =====
-- older/sysfs_sample_parrot_drv/parrot_driver.c: messages put in through sysfs are read back, one
-- at a time, from a character device.
pub mod Kfifo
pub mod Mailbox
pub mod Table
pub mod Refine
pub mod Status
pub mod Setup
pub mod Race
mod Tests
use l3_dd_trg.Base.{
  ℕ, ◌+◌, ◌%◌, ◌≡◌, Bool, true, false, List, [], ◌==◌, ◌&&◌, ◌||◌, ltb, length, get_or, set,
  if◌then◌else◌,
}
use l3_dd_trg.Base.Int.{ℤ, pos, eacces, ebusy, efault, enospc}

-- PARROT_MSG_FIFO_MAX
abbrev pub fifo_max : ℕ
fifo_max = 128

-- The module's variables; `F` is the kernel's FIFO. `one_shot` is a module parameter.
pub record Parrot (F : Type 0) : Type 0 where
  pub fifo : F
  pub msg_len : List ℕ
  pub idx_rd : ℕ
  pub idx_wr : ℕ
  pub message_read : Bool
  pub locked : Bool
  pub one_shot : Bool

-- `(f_flags & O_ACCMODE)` is O_WRONLY or O_RDWR.
abbrev wants_write : ℕ → Bool
wants_write flags = flags % 4 == 1 || flags % 4 == 2

module _ {F : Type 0} where
  unfoldable pub parrot_device_open : Parrot F → ℕ → ℤ × Parrot F
  parrot_device_open p flags =
      if wants_write flags
      then (eacces, p)
      else if p.locked
      then (ebusy, p)
      else (pos 0, record p { locked = true; message_read = false })

  unfoldable pub parrot_device_close : Parrot F → ℤ × Parrot F
  parrot_device_close p = (pos 0, record p { locked = false })

-- The functions that call the FIFO.
module _ (k : Kfifo.Kfifo) where
  -- The result, the bytes that reach the user's buffer, and the new state. `length` is what the
  -- user asks for. `fault` is whether the copy to the user fails.
  unfoldable pub parrot_device_read : Parrot k.Fifo → ℕ → Bool → ℤ × List ℕ × Parrot k.Fifo
  parrot_device_read p length fault =
      if p.one_shot && p.message_read
      then (pos 0, [], p)
      else if k.is_empty p.fifo
      then (pos 0, [], p)
      else (let got = k.to_user p.fifo (get_or p.msg_len p.idx_rd 0) fault in
          let next = record p {
            fifo = got.2;
            idx_rd = (p.idx_rd + 1) % fifo_max;
            message_read = true;
          } in
          (if fault then efault else pos got.0, got.1, next))

  unfoldable pub sysfs_add_to_fifo : Parrot k.Fifo → List ℕ → ℤ × Parrot k.Fifo
  sysfs_add_to_fifo p buf =
      if ltb (k.avail p.fifo) (length buf)
      then (enospc, p)
      else if (p.idx_wr + 1) % fifo_max == p.idx_rd
      then (enospc, p)
      else (let (copied, fifo') = k.put p.fifo buf in
          (
            pos copied,
            record p {
              fifo = fifo';
              msg_len = set p.msg_len p.idx_wr copied;
              idx_wr = (p.idx_wr + 1) % fifo_max;
            },
          ))

  unfoldable pub sysfs_reset : Parrot k.Fifo → ℕ → ℤ × Parrot k.Fifo
  sysfs_reset p count = (pos count, record p { fifo = k.reset p.fifo; idx_rd = 0; idx_wr = 0 })
