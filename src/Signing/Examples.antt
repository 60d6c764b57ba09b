-- ===== src/Signing/Examples.antt =====
-- The theorems on sawtooth_signing with the curve of two keys.
use sawtooth_sdk_python.Base.{◌≡◌, refl}
use sawtooth_sdk_python.Base.Text.{codes, text_eq}
use sawtooth_sdk_python.Base.Exec.{ok}
use sawtooth_sdk_python.Signing.Keys.{create_context}
use sawtooth_sdk_python.Signing.Sound.{IsLawful, create_context-IsLawful}
use sawtooth_sdk_python.Signing.Bits.{bits, bits_context}

created : create_context bits (codes "secp256k1") ≡ ok bits_context
unfolding create_context text_eq
created = refl

create_context-IsLawful_example : (codes "secp256k1" ≡ codes "secp256k1") × IsLawful bits_context
create_context-IsLawful_example = create_context-IsLawful bits (codes "secp256k1") created
