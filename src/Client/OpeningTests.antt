-- ===== src/Client/OpeningTests.antt =====
-- The theorems on the opening of a client at a concrete environment.
use armoni_k_api.Transport.Toy
