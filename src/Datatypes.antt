-- ===== src/Datatypes.antt =====
-- powersensordaemon/datatypes.h
use jk16legacy.Prelude.{ℕ, Option, List, replicate}

-- struct read_buffer_struct. The memory is `buf_size` bytes. It starts as zeros here, where C
-- leaves it as it was: no byte is read before it is written.
pub record ReadBuffer : Type 0 where
  pub offset : ℕ
  pub buf : List ℕ

abbrev pub buf_size : ℕ
buf_size = 100

abbrev pub empty_buffer : ReadBuffer
empty_buffer = record { offset = 0; buf = replicate buf_size 0 }

-- struct buffer_struct, with a null `buf_` as `none`
pub record Buffer : Type 0 where
  pub length_ : ℕ
  pub buf_ : Option (List ℕ)
