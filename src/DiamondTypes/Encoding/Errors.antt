-- ===== src/DiamondTypes/Encoding/Errors.antt =====
-- `ParseError` of tools/diamond-types/src/encoding/parseerror.rs, with `VersionConversionError` of
-- src/causalgraph/agent_assignment/remote_ids.rs, and results that carry it.
use egwalker_paper.Base.{ℕ}

pub data VersionConversionError : Type 0 where
  unknown_agent seq_in_future : VersionConversionError

pub data ParseError : Type 0 where
  invalid_magic unsupported_protocol_version doc_id_mismatch base_version_unknown : ParseError
  unknown_chunk lz4_decoder_needed lz4_decompression_error compressed_data_missing : ParseError
  invalid_chunk_header : ParseError
  missing_chunk : ℕ → ParseError
  invalid_length unexpected_eof invalid_utf8 : ParseError
  invalid_remote_id : VersionConversionError → ParseError
  invalid_var_int invalid_content generic_invalid_data checksum_failed data_missing : ParseError

pub data Result {ℓ} (A : Type ℓ) : Type ℓ where
  ok : A → Result A
  err : ParseError → Result A
