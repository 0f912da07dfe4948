-- ===== src/Generated.antt =====
-- The generated code, with the registration of the types.
pub mod Factory
pub mod DeepCopy
pub mod Rest
pub mod Informer
pub mod Clientset
pub mod Fake
pub mod Lister
pub mod Scheme
