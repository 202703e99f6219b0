-- ===== src/Storage/Status.antt =====
-- The codes of `Status` in faststdb/common/status.h that the storage returns, without their messages.
use fast_stdb.Common.{Bool, true, false}

pub data Status : Type 0 where
  ok : Status
  out_of_range : Status
  overflow : Status
  file_seek_error : Status
  file_write_error : Status
  bad_arg : Status
  unavailable : Status

abbrev pub is_ok : Status → Bool
is_ok ok = true
is_ok out_of_range = false
is_ok overflow = false
is_ok file_seek_error = false
is_ok file_write_error = false
is_ok bad_arg = false
is_ok unavailable = false
