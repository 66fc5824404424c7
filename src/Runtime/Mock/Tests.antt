-- ===== src/Runtime/Mock/Tests.antt =====
-- A mock that is told a value of another type.
use cternal.Prelude.{◌≡◌, refl, none, [], codes}
use cternal.Runtime.Mock.{containers, stream, Called, panics, as_stream, mock_attach}

abbrev mistold : Called
mistold = record {
  list_containers = λ f. record { value = containers []; error = none };
  exec = λ id opts. record { value = stream 1; error = none };
  attach = λ id. record { value = containers []; error = none };
  logs = λ id opts. record { value = stream 1; error = none };
  read = record { value = stream 1; error = none };
  write = λ bytes. none;
  resize = λ cols rows. none;
  close = none;
}

attach_panics : mock_attach mistold (codes "web") ≡ panics
unfolding mock_attach as_stream
attach_panics = refl
