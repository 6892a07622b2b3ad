-- ===== src/Accounts.antt =====
-- The screens for accounts: src/components/Auth/LoginScreen.tsx, and ChangePasswordDialog.tsx,
-- UsersTab.tsx and ProjectsTab.tsx under src/components.
pub mod Lengths
pub mod SignIn
pub mod Passwords
pub mod Seal
pub mod Users
pub mod Projects
pub mod Accepted
pub mod Tests
