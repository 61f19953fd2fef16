-- ===== src/Auth.antt =====
-- Sign-in and sign-out: authority/manage-ui/src/auth, hooks/useAuth.ts and pages/AuthCallback.tsx.
pub mod Provider
pub mod Callback
pub mod TokenLogin
