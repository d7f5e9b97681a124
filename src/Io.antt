-- ===== src/Io.antt =====
-- `io::Error`: the kinds that the server makes or looks at.
use camrtsp.Common.{String}

pub data IoError : Type 0 where
  invalid_data invalid_input timed_out unexpected_eof addr_not_available : String → IoError
  connection_reset broken_pipe would_block interrupted : IoError
  other : String → IoError
