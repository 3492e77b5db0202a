-- ===== src/Examples/Libraries.antt =====
-- Instances of the interfaces to what is not part of the repository.
use ws_streaming.Signals.Metadata.{Metadata}
use ws_streaming.Prelude.{ℕ, List, [], false, none, some, refl, min, length}
use ws_streaming.Buffer.Copy.{BufferCopy, scatter, buffer_size}
use ws_streaming.Peer.Json.{JsonLib}

abbrev pub copier : BufferCopy
copier = record {
  buffer_copy = λ blocks regions source.
      (scatter blocks regions source, min (buffer_size regions) (length source));
  buffer_copy_lem = λ blocks regions source. refl;
}

-- Documents are their bytes; none is an object.
abbrev pub plain : JsonLib
plain = record {
  Json = List ℕ;
  null = [];
  array = λ vs. [];
  parse = λ bytes. some bytes;
  from_msgpack = λ bytes. some bytes;
  to_msgpack = λ j. j;
  is_object = λ j. false;
  is_string = λ j. false;
  contains = λ j name. false;
  field = λ j name. j;
  get_string = λ j. "";
  method_object = λ name j. j;
}

-- The metadata of a signal of 16-bit numbers.
abbrev pub no_metadata : Metadata
no_metadata = record {
  rule = "explicit";
  data_type = "int16";
  sample_size = 2;
  linear = record { table_id = ""; start = none; delta = none; value_index = none };
}
